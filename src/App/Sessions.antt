-- ===== src/App/Sessions.antt =====
-- The list of sessions, when one of them is ended and when a new one begins.
use espnetwork_serial.Prelude.{
  ℕ, zero, suc, ◌≡◌, refl, ap, ◌⊎◌, true, false, List, [], ◌∷◌, ◌++◌, Option, none, some, length,
  arith,
}
use espnetwork_serial.App.Defs.{
  Session, fresh_session, has_ended, holds_conns, close_session, clear_active,
}

pub has_ended-close_same : (xs : List Session) (s : ℕ) → has_ended (close_session xs s) s ≡ true
unfolding has_ended close_session
has_ended-close_same [] s = refl
has_ended-close_same (x ∷ xs) zero = refl
has_ended-close_same (x ∷ xs) (suc s) = has_ended-close_same xs s

pub holds_conns-close_same :
    (xs : List Session) (s : ℕ) → holds_conns (close_session xs s) s ≡ false
unfolding holds_conns close_session
holds_conns-close_same [] s = refl
holds_conns-close_same (x ∷ xs) zero = refl
holds_conns-close_same (x ∷ xs) (suc s) = holds_conns-close_same xs s

pub has_ended-close_other :
    (xs : List Session) (s t : ℕ) → ¬ (t ≡ s) → has_ended (close_session xs s) t ≡ has_ended xs t
unfolding has_ended close_session
has_ended-close_other [] s t ne = refl
has_ended-close_other (x ∷ xs) zero zero ne = absurd (ne refl)
has_ended-close_other (x ∷ xs) zero (suc t) ne = refl
has_ended-close_other (x ∷ xs) (suc s) zero ne = refl
has_ended-close_other (x ∷ xs) (suc s) (suc t) ne =
    has_ended-close_other xs s t (λ e. ne (ap suc e))

pub holds_conns-close_other :
    (xs : List Session) (s t : ℕ)
    → ¬ (t ≡ s)
    → holds_conns (close_session xs s) t ≡ holds_conns xs t
unfolding holds_conns close_session
holds_conns-close_other [] s t ne = refl
holds_conns-close_other (x ∷ xs) zero zero ne = absurd (ne refl)
holds_conns-close_other (x ∷ xs) zero (suc t) ne = refl
holds_conns-close_other (x ∷ xs) (suc s) zero ne = refl
holds_conns-close_other (x ∷ xs) (suc s) (suc t) ne =
    holds_conns-close_other xs s t (λ e. ne (ap suc e))

pub has_ended-append_same :
    (xs : List Session) → has_ended (xs ++ fresh_session ∷ []) (length xs) ≡ false
unfolding has_ended
has_ended-append_same [] = refl
has_ended-append_same (x ∷ xs) = has_ended-append_same xs

pub holds_conns-append_same :
    (xs : List Session) → holds_conns (xs ++ fresh_session ∷ []) (length xs) ≡ true
unfolding holds_conns
holds_conns-append_same [] = refl
holds_conns-append_same (x ∷ xs) = holds_conns-append_same xs

pub has_ended-append_other :
    (xs : List Session) (t : ℕ)
    → ¬ (t ≡ length xs)
    → has_ended (xs ++ fresh_session ∷ []) t ≡ has_ended xs t
unfolding has_ended
has_ended-append_other [] zero ne = absurd (ne refl)
has_ended-append_other [] (suc t) ne = refl
has_ended-append_other (x ∷ xs) zero ne = refl
has_ended-append_other (x ∷ xs) (suc t) ne = has_ended-append_other xs t (λ e. ne (ap suc e))

pub holds_conns-append_other :
    (xs : List Session) (t : ℕ)
    → ¬ (t ≡ length xs)
    → holds_conns (xs ++ fresh_session ∷ []) t ≡ holds_conns xs t
unfolding holds_conns
holds_conns-append_other [] zero ne = absurd (ne refl)
holds_conns-append_other [] (suc t) ne = refl
holds_conns-append_other (x ∷ xs) zero ne = refl
holds_conns-append_other (x ∷ xs) (suc t) ne = holds_conns-append_other xs t (λ e. ne (ap suc e))

pub clear_active-other :
    (o : Option ℕ) (s t : ℕ) → ¬ (t ≡ s) → o ≡ some t → clear_active o s ≡ some t
clear_active-other o s t ne e = rw e ground arith

pub clear_active-some :
    (o : Option ℕ) (s t : ℕ) → clear_active o s ≡ some t → (o ≡ some t) × ¬ (t ≡ s)
clear_active-some o s t e =
    elim o as (λ o'. clear_active o' s ≡ some t → (o' ≡ some t) × ¬ (t ≡ s)) [
      | none ↦ λ e'. ground arith
      | some u ↦ λ e'. ground arith
    ]
      e

pub ℕ-cases : (t s : ℕ) → (t ≡ s) ⊎ ¬ (t ≡ s)
ℕ-cases t s = ground arith

pub clear_active-same : (s : ℕ) → clear_active (some s) s ≡ none
clear_active-same s = ground arith

pub has_ended-nil : (t : ℕ) → has_ended [] t ≡ true
unfolding has_ended
has_ended-nil t = refl

pub holds_conns-nil : (t : ℕ) → holds_conns [] t ≡ false
unfolding holds_conns
holds_conns-nil t = refl
