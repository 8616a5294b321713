-- ===== src/Backend/Postgres/Settled.antt =====
-- The table of events once every row is written, beside the log in memory.
use mathlib.Core.List.{
  Mem, Pairwise, Perm, Pairwise-append, perm_middle, mem-cons_self, mem-cons_of_mem,
  mem-append_left, mem-append_right, append-nil, append_assoc,
}
use mathlib.Core.List.Perm
use mathlib.Core.Bool.{Bool-discrete}
use mathlib.Core.Path.{subst}
use mathlib.Core.HLevel.{hedberg}
use native.Mathlib.Nat.{ℕ_set}
use nexus_cloud_identity_acc.Common.{
  ℕ, ◌-◌, ◌*◌, ◌+◌, ◌<◌, String, true, false, List, [], ◌∷◌, ◌++◌, ◌==◌, ◌≡◌, refl, ap, sym, length,
  All, All-mem, eq_iff, Bool, leb, not, ◌&&◌, ◌≤◌, arith, false, Bool-cases, inl, inr,
}
use nexus_cloud_identity_acc.Backend.Integers.{int_bound}
use nexus_cloud_identity_acc.Backend.AuditLog
use nexus_cloud_identity_acc.Backend.AuditLog.{Event, reverse}
use nexus_cloud_identity_acc.Backend.AuditLog.Cover.{list_events_exact, wrapped_small}
use nexus_cloud_identity_acc.Backend.Postgres.Columns.{
  char_length, has_no_null, cut, takes_short, cut_short,
}
use nexus_cloud_identity_acc.Backend.Postgres.Audit.{
  AuditStore, fits, column, is_storable, is_taken, as_kept, has_id, insert_event, write_event,
  log_event, IsOrdered, list_events,
}
use nexus_cloud_identity_acc.Backend.Postgres.Order.{
  Apart, Earlier, Apart-prop, unique_order, length-Perm, reverse-Perm, reverse-Later,
}

and_inv : (a b : Bool) → (a && b) ≡ true → (a ≡ true) × (b ≡ true)
and_inv true b h = (refl, h)
and_inv false b h = cc h

-- a text that fits is taken as it is
column_of : (n : ℕ) (s : String) → fits n s ≡ true → (column n s ≡ true) × (cut n s ≡ s)
column_of n s h =
    let (short, plain) = and_inv (leb (char_length s) n) (has_no_null s) h in
    let bound : char_length s ≤ n = ground (arith, short) in
    (rw (takes_short n s bound, plain) refl, cut_short n s bound)

storable-kept :
    (rounded : ℕ → ℕ) (e : Event)
    → is_storable e ≡ true
    → rounded e.timestamp ≡ e.timestamp
    → (is_taken e ≡ true) × (as_kept rounded e ≡ e)
unfolding is_storable is_taken
storable-kept rounded e h exact =
    let (front, metadata) = and_inv _ _ h in
    let (front, agent) = and_inv _ _ front in
    let (front, address) = and_inv _ _ front in
    let (front, resource) = and_inv _ _ front in
    let (front, action) = and_inv _ _ front in
    let (id, user_id) = and_inv _ _ front in
    let (i, i') = column_of 64 e.id id in
    let (u, u') = column_of 64 e.user_id user_id in
    let (r, r') = column_of 128 e.resource resource in
    let (a, a') = column_of 64 e.ip_address address in
    (
      rw (i, u, r, a, agent, metadata) refl,
      λ k. record e {
        id = i' k;
        user_id = u' k;
        resource = r' k;
        ip_address = a' k;
        timestamp = exact k;
      },
    )

-- no row has the id of a row that is apart from all of them
has_id-Apart :
    (e : Event) (rows : List Event)
    → ((r : Event) → Mem r rows → Apart r e)
    → has_id e.id rows ≡ false
has_id-Apart e [] h = refl
has_id-Apart e (r ∷ rows) h = elim (Bool-cases (r.id == e.id)) [
  | inl same ↦ absurd (h r mem-cons_self ((eq_iff r.id e.id).0 same))
  | inr other ↦ rw other (has_id-Apart e rows (λ s m. h s (mem-cons_of_mem r m)))
]

appended :
    (rows waiting es : List Event) (e : Event)
    → Perm (rows ++ waiting) es
    → Perm (rows ++ (waiting ++ e ∷ [])) (es ++ e ∷ [])
appended rows waiting es e p =
    subst (λ xs. Perm xs (es ++ e ∷ [])) (append_assoc rows waiting (e ∷ []))
      (Perm.append_right (e ∷ []) p)

moved :
    (rows before after es : List Event) (e : Event)
    → Perm (rows ++ (before ++ e ∷ after)) es
    → Perm (e ∷ rows ++ (before ++ after)) es
moved rows before after es e p =
    Perm.trans
      (Perm.symm (
        subst (λ xs. Perm xs (e ∷ rows ++ (before ++ after))) (append_assoc rows before (e ∷ after))
          (subst (λ xs. Perm ((rows ++ before) ++ e ∷ after) (e ∷ xs))
            (append_assoc rows before after) (perm_middle (rows ++ before) after))))
      p

module _ (rounded : ℕ → ℕ) where
  -- From an empty table: events are logged one after the other, and each row that waits is written at any
  -- time, in any order, by a server that answers.
  pub data Reaches : List Event → AuditStore → Type 0 where
    starts : Reaches [] (record { table = []; pending = [] })
    logs :
        {es : List Event} {s : AuditStore} (id : String) (now : ℕ) (e : Event)
        → Reaches es s
        → Reaches (AuditLog.log_event id now e es) (log_event id now e s)
    writes :
        {es table : List Event} (before : List Event) (e : Event) (after : List Event)
        → Reaches es (record { table = table; pending = before ++ e ∷ after })
        → Reaches es (write_event rounded true before e after table)

  -- what the table keeps as it is
  abbrev pub Kept : Event → Type 0
  Kept e = (is_storable e ≡ true) × (rounded e.timestamp ≡ e.timestamp)

  all_kept : (es : List Event) → All Kept es → (e : Event) → Mem e es → Kept e
  all_kept es h e m = ∥∥₁_rec (hlevel (ℕ_set, hedberg Bool-discrete)) (All-mem Kept es h) m

  inserted :
      (e : Event) (table : List Event)
      → Kept e
      → has_id e.id table ≡ false
      → insert_event rounded e table ≡ e ∷ table
  unfolding insert_event
  inserted e table (storable, exact) new =
      let (taken, same) = storable-kept rounded e storable exact in
      let own = ap (λ d. d.id) same in
      let goes : (is_taken e && not (has_id (cut 64 e.id) table)) ≡ true =
        rw (taken, own, new) refl in
      rw goes (ap (λ d. d ∷ table) same)

  -- the rows and those that wait are the events that were logged
  Reaches-Perm :
      (es : List Event) (s : AuditStore)
      → Reaches es s
      → ((e : Event) → Mem e es → Kept e)
      → Pairwise Apart es
      → Perm (s.table ++ s.pending) es
  unfolding AuditLog.log_event log_event write_event
  Reaches-Perm _ _ starts kept apart = Perm.refl []
  Reaches-Perm _ _ (logs {es = es} {s = s} id now e r) kept apart =
      appended s.table s.pending es _ (
        Reaches-Perm es s r (λ d m. kept d (mem-append_left _ m))
          ((Pairwise-append Apart-prop).0 apart).0)
  Reaches-Perm es _ (writes {table = table} before e after r) kept apart =
      let p = Reaches-Perm es _ r kept apart in
      let (_, _, differ) =
        (Pairwise-append Apart-prop).0
          (Perm.pairwise Apart-prop (λ a b n q. n (sym q)) (Perm.symm p) apart) in
      let there = mem-append_right before mem-cons_self in
      let new = has_id-Apart e table (λ a m. differ a m e there) in
      let known = kept e (Perm.subset p e (mem-append_right table there)) in
      subst (λ rows. Perm (rows ++ (before ++ after)) es) (sym (inserted e table known new))
        (moved table before after es e p)

  -- Events whose ids differ, whose instants increase and are whole for the column, and whose texts fit their
  -- columns, are logged, and their rows are written in any order by a server that answers. When
  -- none waits any more, the table has as many rows as were logged, and every page of it is the page of the
  -- same events in memory, where no number overflows.
  pub settled-lists :
      (es ordered : List Event) (s : AuditStore) (page size : ℕ)
      → Reaches es s
      → s.pending ≡ []
      → IsOrdered s.table ordered
      → All Kept es
      → Pairwise Apart es
      → Pairwise Earlier es
      → (page - 1) * size < int_bound
      → length es + size < int_bound
      → (length s.table ≡ length es)
        × (list_events page size ordered ≡ AuditLog.list_events page size es)
  unfolding list_events
  settled-lists es ordered s page size r done (sorted, falling) kept apart earlier start room =
      let all : Perm s.table es =
        subst (λ xs. Perm xs es) (append-nil s.table)
          (subst (λ w. Perm (s.table ++ w) es) done
            (Reaches-Perm es s r (all_kept es kept) apart)) in
      let same : ordered ≡ reverse es =
        unique_order (reverse es) ordered (reverse-Later es earlier) falling
          (Perm.trans sorted (Perm.trans all (Perm.symm (reverse-Perm es)))) in
      (
        length-Perm all,
        rw (wrapped_small ((page - 1) * size) start, same)
            (sym (list_events_exact page size es start room)),
      )
