-- ===== src/Queue/Keeps.antt =====
-- What each row function of the queue keeps of a run.
use backhaus_ai_backend.Base.{
  none, ◌≡◌, refl, Bool, true, false, ◌&&◌, ◌||◌, List, arith, str_eq, ◌==◌, inl, inr,
  if◌then◌else◌, Bool-cases, update_rows, Pairs, Pairs-update_rows, All, All-update_rows, Memᴰ,
  Pairs-mem,
}
use backhaus_ai_backend.Store.{Db, RunRow, is_active, is_running}
use backhaus_ai_backend.Queue.{IsLeased, Apart, IsSound, same_conversation}

-- A row function that keeps the keys of a run and never revives it.
pub record Keeps (a b : RunRow) : Type 0 where
  pub id : b.id ≡ a.id
  pub workspace : b.workspace ≡ a.workspace
  pub key : b.request_key ≡ a.request_key
  pub conversation : b.conversation ≡ a.conversation
  pub active : is_active b.status ≡ true → is_active a.status ≡ true

pub Keeps-refl : (a : RunRow) → Keeps a a
Keeps-refl a = record {
  id = refl;
  workspace = refl;
  key = refl;
  conversation = refl;
  active = λ h. h;
}

clash_mono :
    (i k w c x y x' y' : Bool)
    → (x' ≡ true → x ≡ true)
    → (y' ≡ true → y ≡ true)
    → (i || k || (w && c && x && y)) ≡ false
    → (i || k || (w && c && x' && y')) ≡ false
clash_mono i k w c x y true true p q h = ground (arith, p refl, q refl)
clash_mono i k w c x y _ _ p q h = ground arith

pub Keeps-Apart : (a b c d : RunRow) → Keeps a c → Keeps b d → Apart a b → Apart c d
Keeps-Apart a b c d k l h =
    rw (k.id, k.workspace, k.key, k.conversation, l.id, l.workspace, l.key, l.conversation)
      (clash_mono (a.id == b.id)
        (str_eq a.workspace b.workspace && str_eq a.request_key b.request_key)
        (str_eq a.workspace b.workspace) (same_conversation a.conversation b.conversation) _ _ _ _
        k.active l.active h)

Keeps-if :
    (p : RunRow → Bool) (f : RunRow → RunRow) (a : RunRow)
    → (p a ≡ true → Keeps a (f a))
    → Keeps a (if p a then f a else a)
Keeps-if p f a k = elim (Bool-cases (p a)) [ inl e ↦ rw e (k e) | inr e ↦ rw e (Keeps-refl a) ]

update-Apart :
    (p : RunRow → Bool) (f : RunRow → RunRow) (rs : List RunRow)
    → ((a : RunRow) → Memᴰ a rs → p a ≡ true → Keeps a (f a))
    → Pairs Apart rs
    → Pairs Apart (update_rows p f rs)
update-Apart p f rs k =
    Pairs-update_rows Apart p f rs
      λ a b m n. Keeps-Apart a b _ _ (Keeps-if p f a (k a m)) (Keeps-if p f b (k b n))

-- One UPDATE over the runs.
pub update-IsSound :
    (db : Db) (rs : List RunRow) (p : RunRow → Bool) (f : RunRow → RunRow)
    → rs ≡ update_rows p f db.runs
    → ((a : RunRow) → Memᴰ a db.runs → p a ≡ true → IsLeased a → IsLeased (f a))
    → ((a : RunRow) → Memᴰ a db.runs → p a ≡ true → Keeps a (f a))
    → IsSound db
    → All IsLeased rs × Pairs Apart rs
update-IsSound db rs p f e l k s =
    rw e (All-update_rows IsLeased p f db.runs l s.leased, update-Apart p f db.runs k s.apart)

-- Rows of one table with one id are one row.
pub same_id :
    (rs : List RunRow) (a b : RunRow) → Pairs Apart rs → Memᴰ a rs → Memᴰ b rs → a.id ≡ b.id → a ≡ b
same_id rs a b h m n e = elim (Pairs-mem Apart rs h m n) [
  | inl same ↦ same
  | inr (inl ab) ↦ ground arith
  | inr (inr ba) ↦ ground arith
]

-- A row that no longer runs and has given up its lease.
pub idle-IsLeased :
    (r : RunRow)
    → is_running r.status ≡ false
    → r.lease_token ≡ none
    → r.lease_until ≡ none
    → IsLeased r
idle-IsLeased r s t u = ground arith
