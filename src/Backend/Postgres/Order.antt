-- ===== src/Backend/Postgres/Order.antt =====
-- Events with increasing instants, and the one order that `ORDER BY timestamp DESC` leaves them.
use mathlib.Core.List.{
  Mem, Permᴰ, Pairwise, Perm, Pairwise-cons, Pairwise-append, perm_middle, eq-or-mem_of_mem-cons,
  mem-cons_self, not-mem-nil, append-nil,
}
use mathlib.Core.List.Perm
use mathlib.Core.Path.{subst}
use mathlib.Core.HLevel.{¬_prop, hedberg}
use mathlib.Core.Logic.Or
use native.Mathlib.Bridge.{le_prop}
use native.Mathlib.Nat.{ℕ_set}
use nexus_cloud_identity_acc.Common.{
  ◌≤◌, ◌<◌, String, List, [], ◌∷◌, ◌==◌, ◌≡◌, ◌≢◌, ◌∙◌, refl, ap, sym, length, arith, eq_iff,
  Bool-cases, inl, inr,
}
use nexus_cloud_identity_acc.Backend.AuditLog.{Event, reverse}

abbrev pub Apart : Event → Event → Type 0
Apart a b = a.id ≢ b.id

abbrev pub Earlier : Event → Event → Type 0
Earlier a b = a.timestamp < b.timestamp

abbrev pub Later : Event → Event → Type 0
Later a b = b.timestamp < a.timestamp

abbrev pub NotEarlier : Event → Event → Type 0
NotEarlier a b = b.timestamp ≤ a.timestamp

pub Apart-prop : (a b : Event) → IsProp (Apart a b)
Apart-prop a b = ¬_prop

pub Later-prop : (a b : Event) → IsProp (Later a b)
Later-prop a b = le_prop

String-discrete : Discrete String
String-discrete s t = elim (Bool-cases (s == t)) [
  | inl h ↦ yes ((eq_iff s t).0 h)
  | inr h ↦ no (λ e. let same = (eq_iff s t).1 e in cc)
]

Event-set : IsSet Event
Event-set = hlevel (ℕ_set, hedberg String-discrete)

-- A strict order and an order that lets instants be equal put the same rows in one way.
pub unique_order :
    (xs ys : List Event) → Pairwise Later xs → Pairwise NotEarlier ys → Perm ys xs → ys ≡ xs
unique_order [] ys hx hy p = Perm.eq-nil p
unique_order (x ∷ xs) [] hx hy p = Perm.nil-eq p
unique_order (x ∷ xs) (y ∷ ys) hx hy p =
    let (first, rest) = Pairwise-cons.0 hx in
    let (top, others) = Pairwise-cons.0 hy in
    let high : x.timestamp ≤ y.timestamp =
      Or.«elim» le_prop (eq-or-mem_of_mem-cons (Perm.subset (Perm.symm p) x mem-cons_self))
        (λ e. subst (λ z. x.timestamp ≤ z.timestamp) e (omega arith)) (λ m. top x m) in
    let same : y ≡ x =
      Or.resolve_right (Event-set y x) (eq-or-mem_of_mem-cons (Perm.subset p y mem-cons_self))
        (λ m. let low = first y m in omega arith) in
    ap (λ z. z ∷ ys) same
    ∙ ap (λ zs. x ∷ zs)
        (unique_order xs ys rest others
          (Perm.cons_inv (subst (λ z. Perm (z ∷ ys) (x ∷ xs)) same p)))

length_of : {xs ys : List Event} → Permᴰ xs ys → length xs ≡ length ys
length_of Permᴰ.nil = refl
length_of (Permᴰ.cons e d) = omega (arith, length_of d)
length_of (Permᴰ.swap e f) = omega arith
length_of (Permᴰ.trans d f) = length_of d ∙ length_of f

pub length-Perm : {xs ys : List Event} → Perm xs ys → length xs ≡ length ys
length-Perm {xs} {ys} p = ∥∥₁_rec (ℕ_set (length xs) (length ys)) length_of p

pub reverse-Perm : (es : List Event) → Perm (reverse es) es
reverse-Perm [] = Perm.refl []
reverse-Perm (e ∷ es) =
    Perm.trans (perm_middle (reverse es) [])
      (Perm.cons e (subst (λ xs. Perm xs es) (sym (append-nil (reverse es))) (reverse-Perm es)))

pub only : {a : Event} (b : Event) → Mem b (a ∷ []) → b ≡ a
only {a} b m = Or.resolve_right (Event-set b a) (eq-or-mem_of_mem-cons m) not-mem-nil

pub reverse-Later : (es : List Event) → Pairwise Earlier es → Pairwise Later (reverse es)
reverse-Later [] h = Pairwise.nil
reverse-Later (e ∷ es) h =
    let (first, rest) = Pairwise-cons.0 h in
    (Pairwise-append Later-prop).1 (
      reverse-Later es rest,
      Pairwise.cons (λ a m. absurd (not-mem-nil m)) Pairwise.nil,
      λ a m b mb.
          subst (λ z. Later a z) (sym (only b mb)) (first a (Perm.subset (reverse-Perm es) a m)),
    )
