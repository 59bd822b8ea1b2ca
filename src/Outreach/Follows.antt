-- ===== src/Outreach/Follows.antt =====
-- The table of messages under the statements of src/outreach.rs: identifiers stay unique, every message
-- keeps to its life, and a thread is asked three times at most.
use backhaus_ai_backend.Base.{
  ℕ, ◌+◌, ◌≤◌, ◌≡◌, refl, ◌∙◌, Bool, true, false, arith, some, List, [], ◌∷◌, ◌++◌, inl, inr, ◌==◌,
  ==_iff, if◌then◌else◌, Bool-cases, Memᴰ, any_row, count_rows, update_rows, mem-update_rows,
  mem-update_rows_hit, Pairs, Pairs-update_rows, Pairs-append, All, All-append, All-mono,
  All-of_any_row, All-update_rows, Pairs-mem,
}
use backhaus_ai_backend.Store.Outreach.{Message}
use backhaus_ai_backend.Outreach.{is_message}
use backhaus_ai_backend.Outreach.Reviews.{asks_in}
use backhaus_ai_backend.Outreach.Stages.{Stage, stays, Leads-trans, stage, LeadsTo}

abbrev pub Apart : Message → Message → Type 0
Apart a b = (a.id == b.id) ≡ false

pub record Staged (m : Message) : Type 0 where
  pub at_stage : Stage
  pub holds : stage m ≡ some at_stage

pub record IsTable (ms : List Message) : Type 0 where
  pub apart : Pairs Apart ms
  pub staged : All Staged ms

-- The table still has the message, at a stage that its life leads to.
pub record Lives (id : ℕ) (s : Stage) (ms : List Message) : Type 0 where
  pub row : Message
  pub mem : Memᴰ row ms
  pub same : row.id ≡ id
  pub next : LeadsTo s (stage row)

pub record Follows (ms ns : List Message) : Type 0 where
  pub table : IsTable ns
  pub lives : (m : Message) (s : Stage) → Memᴰ m ms → stage m ≡ some s → Lives m.id s ns
  pub asks : (t : ℕ) → count_rows (asks_in t) ms ≤ 3 → count_rows (asks_in t) ns ≤ 3

pub Follows-refl : (ms : List Message) → IsTable ms → Follows ms ms
Follows-refl ms t = record {
  table = t;
  lives = λ m s k h. record {
    row = m;
    mem = k;
    same = refl;
    next = record { to = s; at = h; leads = stays };
  };
  asks = λ t h. h;
}

pub Follows-trans : {xs ys zs : List Message} → Follows xs ys → Follows ys zs → Follows xs zs
Follows-trans {zs = zs} f g = record {
  table = g.table;
  lives = λ m s k h.
      (let l : Lives m.id s _ = f.lives m s k h in
        let n : Lives l.row.id l.next.to zs = g.lives l.row l.next.to l.mem l.next.at in
        record {
          row = n.row;
          mem = n.mem;
          same = n.same ∙ l.same;
          next = record {
            to = n.next.to;
            at = n.next.at;
            leads = Leads-trans l.next.leads n.next.leads;
          };
        });
  asks = λ t h. g.asks t (f.asks t h);
}

-- What a row function must do to the rows that its statement selects.
pub record Keeps (f : Message → Message) (m : Message) : Type 0 where
  pub id : (f m).id ≡ m.id
  pub thread : (f m).thread_id ≡ m.thread_id
  pub source : (f m).source_message_id ≡ m.source_message_id
  pub leads : (s : Stage) → stage m ≡ some s → LeadsTo s (stage (f m))

module _ (p : Message → Bool) (f : Message → Message) where
  count-update :
      (q : Message → Bool) (ms : List Message)
      → ((m : Message) → Memᴰ m ms → p m ≡ true → q (f m) ≡ q m)
      → count_rows q (update_rows p f ms) ≡ count_rows q ms
  count-update q [] k = refl
  count-update q (m ∷ ms) k = elim (Bool-cases (p m)) [
    | inl e ↦
        ground (arith, e, k m (Memᴰ.head refl) e, count-update q ms (λ a n. k a (Memᴰ.tail n)))
    | inr e ↦ ground (arith, e, count-update q ms (λ a n. k a (Memᴰ.tail n)))
  ]

  id-if : (m : Message) → (p m ≡ true → Keeps f m) → (if p m then f m else m).id ≡ m.id
  id-if m k = elim (Bool-cases (p m)) [ inl e ↦ rw e (k e).id | inr e ↦ rw e refl ]

  pub update-Follows :
      (ms : List Message)
      → ((m : Message) → Memᴰ m ms → p m ≡ true → Keeps f m)
      → IsTable ms
      → Follows ms (update_rows p f ms)
  update-Follows ms k t = record {
    table = record {
      apart =
          Pairs-update_rows Apart p f ms
            (λ a b m n r. ground (arith, r, id-if a (k a m), id-if b (k b n))) t.apart;
      staged =
          All-update_rows Staged p f ms
            (λ a m e s.
              let l : LeadsTo s.at_stage (stage (f a)) = (k a m e).leads s.at_stage s.holds in
              record { at_stage = l.to; holds = l.at })
            t.staged;
    };
    lives = λ m s n h. elim (Bool-cases (p m)) [
      | inl e ↦ record {
        row = f m;
        mem = mem-update_rows_hit p f ms e n;
        same = (k m n e).id;
        next = (k m n e).leads s h;
      }
      | inr e ↦ record {
        row = m;
        mem = mem-update_rows p f ms e n;
        same = refl;
        next = record { to = s; at = h; leads = stays };
      }
    ];
    asks = λ t h. ground (
      arith,
      h,
      count-update (asks_in t) ms (λ m n e. ground (arith, (k m n e).thread, (k m n e).source)),
    );
  }

mem-append : {m : Message} (ms ns : List Message) → Memᴰ m ms → Memᴰ m (ms ++ ns)
mem-append (x ∷ ms) ns (Memᴰ.head e) = Memᴰ.head e
mem-append (x ∷ ms) ns (Memᴰ.tail k) = Memᴰ.tail (mem-append ms ns k)
mem-append [] ns k = elim k [ ]

count-append :
    (q : Message → Bool) (ms : List Message) (m : Message)
    → count_rows q (ms ++ m ∷ []) ≡ count_rows q ms + (if q m then 1 else 0)
count-append q [] m = ground arith
count-append q (x ∷ ms) m = ground (arith, count-append q ms m)

-- A new message under a new identifier; a question only where fewer than three were asked.
pub append-Follows :
    (ms : List Message) (m : Message) (s : Stage)
    → stage m ≡ some s
    → any_row (is_message m.id) ms ≡ false
    → ((t : ℕ) → asks_in t m ≡ true → count_rows (asks_in t) ms ≤ 2)
    → IsTable ms
    → Follows ms (ms ++ m ∷ [])
append-Follows ms m s h fresh few t = record {
  table = record {
    apart = Pairs-append Apart ms m t.apart (
        All-mono (λ a. is_message m.id a ≡ false) (λ a. Apart a m) ms (λ a e. e)
          (All-of_any_row (is_message m.id) ms fresh));
    staged = All-append Staged ms (m ∷ []) t.staged (record { at_stage = s; holds = h }, tt);
  };
  lives = λ a u k e. record {
    row = a;
    mem = mem-append ms (m ∷ []) k;
    same = refl;
    next = record { to = u; at = e; leads = stays };
  };
  asks = λ t h. elim (Bool-cases (asks_in t m)) [
    | inl e ↦ ground (arith, e, few t e, count-append (asks_in t) ms m)
    | inr e ↦ ground (arith, e, h, count-append (asks_in t) ms m)
  ];
}

-- Two rows with one identifier are the same.
pub same_message :
    (ms : List Message) {a b : Message} → IsTable ms → Memᴰ a ms → Memᴰ b ms → a.id ≡ b.id → a ≡ b
same_message ms {a = a} {b = b} t m n e = elim (Pairs-mem Apart ms t.apart m n) [
  | inl q ↦ q
  | inr (inl q) ↦ absurd (ground (arith, e, q, (==_iff a.id b.id).1))
  | inr (inr q) ↦ absurd (ground (arith, e, q, (==_iff b.id a.id).1))
]
