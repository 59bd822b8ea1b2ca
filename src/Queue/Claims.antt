-- ===== src/Queue/Claims.antt =====
-- Which run a claim takes, and when a run that failed or was handed back can be taken again.
use backhaus_ai_backend.Base.{
  ℕ, ◌≡◌, refl, sym, subst, true, arith, inl, inr, some, String, ◌==◌, Bool-cases, Memᴰ, count_rows,
  update_rows, mem-update_rows_hit,
}
use backhaus_ai_backend.Base.Text.{str_eq_refl}
use backhaus_ai_backend.Base.Json.{Json}
use backhaus_ai_backend.Store.{Db, RunRow, queued, is_chat}
use backhaus_ai_backend.Jobs.{Run}
use backhaus_ai_backend.Jobs.Claim.{
  Lane, claim_in_lane, recover, eligible, procurement_on, claimed_row, claimed, precedes,
}
use backhaus_ai_backend.Jobs.Control.{release_for, released_row, held}
use backhaus_ai_backend.Queue.First.{first_by-mem, first_by-holds, first_by-least}
use backhaus_ai_backend.Queue.Fencing.{claim-Claimed}

-- A claim returns a queued run of its workspace and lane that is due, and of a kind that is not
-- switched off, counted as one more attempt. No other such run comes before it: chat runs come
-- first, then the older ones.
pub claim_first :
    (now lease : ℕ) (ws : String) (lane : Lane) (run : Run) (db db' : Db)
    → claim_in_lane now lease ws lane db ≡ (some run, db')
    → (r : RunRow) × Memᴰ r (recover now ws db).runs
      × (run ≡ claimed lease r)
      × (eligible now ws lane (procurement_on ws db.agents) r ≡ true)
      × ((a : RunRow)
          → Memᴰ a (recover now ws db).runs
          → eligible now ws lane (procurement_on ws db.agents) a ≡ true
          → precedes r a ≡ true)
claim_first now lease ws lane run db db' h =
    let c = claim-Claimed now lease ws lane run db db' h in
    (
      c.row,
      first_by-mem _ _ c.picked,
      c.same,
      first_by-holds _ _ c.picked,
      λ a m e. first_by-least _ _ c.picked m e,
    )

-- While a chat run is due, a worker of every lane that takes chats claims a chat run.
pub chat_before_background :
    (now lease : ℕ) (ws : String) (lane : Lane) (run : Run) (a : RunRow) (db db' : Db)
    → claim_in_lane now lease ws lane db ≡ (some run, db')
    → Memᴰ a (recover now ws db).runs
    → eligible now ws lane (procurement_on ws db.agents) a ≡ true
    → is_chat a.kind ≡ true
    → is_chat run.kind ≡ true
chat_before_background now lease ws lane run a db db' h m e k =
    let (r, _, same, _, least) = claim_first now lease ws lane run db db' h in
    unfold claimed precedes in ground (arith, same, least a m e)

release_for-runs :
    (now : ℕ) (run : Run) (reason : String) (db : Db)
    → (release_for now run reason db).runs ≡ update_rows (held run) (released_row now) db.runs
unfolding release_for
release_for-runs now run reason db = elim (Bool-cases (count_rows (held run) db.runs == 1)) [
  | inl c ↦ rw c
  | inr c ↦ rw c
]

-- A worker that hands its run back spends no attempt: the row is in the queue again, due at once,
-- with the number of attempts from before the claim.
pub release_undoes_claim :
    (now later lease : ℕ) (ws : String) (lane : Lane) (run : Run) (reason : String) (db db' : Db)
    → claim_in_lane now lease ws lane db ≡ (some run, db')
    → (r b : RunRow) × Memᴰ r (recover now ws db).runs
      × Memᴰ b (release_for later run reason db').runs
      × (b.id ≡ r.id)
      × (b.attempt ≡ r.attempt)
      × (b.status ≡ queued)
      × (b.available_at ≡ later)
release_undoes_claim now later lease ws lane run reason db db' h =
    let c = claim-Claimed now lease ws lane run db db' h in
    let taken : RunRow = claimed_row now lease c.row in
    let m : Memᴰ taken db'.runs = subst (Memᴰ taken) (sym c.runs) (
      mem-update_rows_hit (λ x. x.id == c.row.id) (claimed_row now lease) (recover now ws db).runs
        (ground arith) (first_by-mem _ _ c.picked)) in
    (
      c.row,
      released_row later taken,
      first_by-mem _ _ c.picked,
      subst (Memᴰ (released_row later taken)) (sym (release_for-runs later run reason db')) (
          mem-update_rows_hit (held run) (released_row later) db'.runs
            (unfold held claimed claimed_row in ground (arith, c.same, str_eq_refl c.row.workspace))
            m),
      unfold released_row claimed_row in refl,
      unfold released_row claimed_row in omega arith,
      unfold released_row in refl,
      unfold released_row in refl,
    )
