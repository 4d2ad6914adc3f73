-- ===== src/Ring/Evict.antt =====
-- Eviction from the index of complete lines: by overwritten bytes, and by the line limit.
use rsupervisord.Prelude.{
  ℕ, ◌≤◌, ◌<◌, ◌≡◌, refl, Option, none, some, List, [], ◌∷◌, arith, ltb, Bool-cases, inl, inr,
  length, All, ltb→le,
}
use rsupervisord.Ring.{drop_expired, cap_lines, retain}
use rsupervisord.Ring.Lines.{IsLine, Linked}

-- A suffix of the index is an index.
Linked-tail : (x : ℕ × ℕ) (xs : List (ℕ × ℕ)) (cls : ℕ) → Linked (x ∷ xs) cls → Linked xs cls
Linked-tail x [] cls l = tt
Linked-tail (s, e) ((s', e') ∷ rest) cls l = l.1

-- Every line starts before the open line.
start-lt :
    {h : List ℕ} (s e : ℕ) (rest : List (ℕ × ℕ)) (cls : ℕ)
    → All (IsLine h) ((s, e) ∷ rest)
    → Linked ((s, e) ∷ rest) cls
    → s < cls
start-lt s e [] cls a l = omega (arith, a.0.inside)
start-lt s e ((s', e') ∷ rest) cls a l = omega (arith, a.0.inside, start-lt s' e' rest cls a.1 l.1)

-- What is kept of an index: lines from offset `lo` on, linked to the open line.
pub record Kept (h : List ℕ) (lo : ℕ) (idx : List (ℕ × ℕ)) (cls : ℕ) : Type 0 where
  pub lines : All (IsLine h) idx
  pub linked : Linked idx cls
  pub retained : All (λ l. lo ≤ l.0) idx

All-retained :
    {h : List ℕ} (lo s e : ℕ) (rest : List (ℕ × ℕ)) (cls : ℕ)
    → lo ≤ s
    → All (IsLine h) ((s, e) ∷ rest)
    → Linked ((s, e) ∷ rest) cls
    → All (λ l. lo ≤ l.0) ((s, e) ∷ rest)
All-retained lo s e [] cls le a l = (le, tt)
All-retained lo s e ((s', e') ∷ rest) cls le a l =
    (le, All-retained lo s' e' rest cls (omega (arith, a.0.inside, l.0)) a.1 l.1)

pub drop_expired-Kept :
    {h : List ℕ} (lo : ℕ) (idx : List (ℕ × ℕ)) (cls : ℕ)
    → All (IsLine h) idx
    → Linked idx cls
    → Kept h lo (drop_expired lo idx) cls
unfolding drop_expired
drop_expired-Kept lo [] cls a l = record { lines = tt; linked = tt; retained = tt }
drop_expired-Kept lo ((s, e) ∷ rest) cls a l = elim (Bool-cases (ltb s lo)) [
  | inl t ↦ rw t (drop_expired-Kept lo rest cls a.1 (Linked-tail (s, e) rest cls l))
  | inr f ↦
      rw f (record {
        lines = a;
        linked = l;
        retained = All-retained lo s e rest cls (ltb→le _ _ f) a l;
      })
]

-- If the open line has lost its start, every complete line has left the index.
pub drop_expired-eq-nil :
    (h : List ℕ) (lo : ℕ) (idx : List (ℕ × ℕ)) (cls : ℕ)
    → All (IsLine h) idx
    → Linked idx cls
    → cls < lo
    → drop_expired lo idx ≡ []
unfolding drop_expired
drop_expired-eq-nil h lo [] cls a l lt = refl
drop_expired-eq-nil h lo ((s, e) ∷ rest) cls a l lt = ground (
  arith,
  start-lt s e rest cls a l,
  drop_expired-eq-nil h lo rest cls a.1 (Linked-tail (s, e) rest cls l) lt,
)

abbrev pub AtMost : Option ℕ → List (ℕ × ℕ) → Type 0
AtMost none idx = Unit
AtMost (some m) idx = length idx ≤ m

cap_lines-Kept :
    {h : List ℕ} (lo m : ℕ) (idx : List (ℕ × ℕ)) (cls : ℕ)
    → Kept h lo idx cls
    → Kept h lo (cap_lines m idx) cls
unfolding cap_lines
cap_lines-Kept lo m [] cls k = k
cap_lines-Kept lo m (x ∷ rest) cls k = elim (Bool-cases (ltb m (length (x ∷ rest)))) [
  | inl t ↦ rw t (
      cap_lines-Kept lo m rest cls (record {
        lines = k.lines.1;
        linked = Linked-tail x rest cls k.linked;
        retained = k.retained.1;
      }))
  | inr f ↦ rw f k
]

length-cap_lines : (m : ℕ) (idx : List (ℕ × ℕ)) → length (cap_lines m idx) ≤ m
unfolding cap_lines
length-cap_lines m [] = omega arith
length-cap_lines m (x ∷ rest) = ground (arith, length-cap_lines m rest)

pub retain-Kept :
    {h : List ℕ} (lo : ℕ) (limit : Option ℕ) (idx : List (ℕ × ℕ)) (cls : ℕ)
    → Kept h lo idx cls
    → Kept h lo (retain limit idx) cls × AtMost limit (retain limit idx)
unfolding retain
retain-Kept lo none idx cls k = (k, tt)
retain-Kept lo (some m) idx cls k = (cap_lines-Kept lo m idx cls k, length-cap_lines m idx)

pub retain-nil : (limit : Option ℕ) → retain limit [] ≡ []
unfolding retain cap_lines
retain-nil none = refl
retain-nil (some m) = refl
