-- ===== src/Ini/Wildcard/Reference.antt =====
-- What a pattern means: a recursive matcher, and the loop of `wildcard_match` against it.
use rsupervisord.Prelude.{
  ℕ, zero, suc, ◌+◌, ◌*◌, ◌≤◌, ◌<◌, ◌≡◌, refl, sym, ap, ◌∙◌, arith, Bool, true, false, ◌||◌, Option,
  none, some, [], ◌∷◌, ◌++◌, Text, ◌==◌, if◌then◌else◌, length, drop, Bool-cases, inl, inr,
  length-drop,
}
use rsupervisord.Ini.Wildcard.{only_stars}

-- Some suffix passes the test.
abbrev pub any_suffix : (Text → Bool) → Text → Bool
any_suffix f [] = f []
any_suffix f (c ∷ cs) = f (c ∷ cs) || any_suffix f cs

-- A star stands for any text, a question mark for any character, the rest for themselves.
unfoldable pub glob : Text → Text → Bool
glob [] [] = true
glob [] (c ∷ cs) = false
glob (p ∷ ps) [] = let rest = glob ps [] in if p == b'*' then rest else false
glob (p ∷ ps) (c ∷ cs) =
    let rest = glob ps cs in
    let behind = glob ps in
    if p == b'*'
    then any_suffix behind (c ∷ cs)
    else if (p == b'?') || (p == c)
    then rest
    else false

pub only_stars-eq-glob : (p : Text) → only_stars p ≡ glob p []
unfolding only_stars glob
only_stars-eq-glob [] = refl
only_stars-eq-glob (p ∷ ps) = ground (arith, only_stars-eq-glob ps)

-- A text without a star.
abbrev pub StarFree : Text → Type 0
StarFree [] = Unit {0}
StarFree (c ∷ cs) = ((c == b'*') ≡ false) × StarFree cs

StarFree-drop : (n : ℕ) (t : Text) → StarFree t → StarFree (drop n t)
StarFree-drop zero t h = h
StarFree-drop (suc n) [] h = h
StarFree-drop (suc n) (c ∷ t) h = StarFree-drop n t h.1

-- Characters of the pattern that are no star take as many characters of the text.
glob-skip :
    (w p u : Text)
    → StarFree w
    → glob (w ++ p) u ≡ true
    → (length w ≤ length u) × (glob p (drop (length w) u) ≡ true)
unfolding glob
glob-skip [] p u s h = (omega arith, h)
glob-skip (c ∷ w) p [] s h = ground (arith, s)
glob-skip (c ∷ w) p (d ∷ u) s h = ground (arith, s, glob-skip w p u s.1)

any_suffix-drop :
    (f : Text → Bool) (n : ℕ) (t : Text) → any_suffix f (drop n t) ≡ true → any_suffix f t ≡ true
any_suffix-drop f zero t h = h
any_suffix-drop f (suc n) [] h = h
any_suffix-drop f (suc n) (c ∷ t) h = ground (arith, any_suffix-drop f n t h)

-- The suffix that a test passes, by the number of characters before it.
any_suffix-found :
    (f : Text → Bool) (t : Text)
    → any_suffix f t ≡ true
    → (n : ℕ) × (n ≤ length t) × (f (drop n t) ≡ true)
any_suffix-found f [] h = (0, omega arith, h)
any_suffix-found f (c ∷ t) h = elim (Bool-cases (f (c ∷ t))) [
  | inl e ↦ (0, omega arith, e)
  | inr e ↦
      let (n, le, found) = any_suffix-found f t (ground (arith, h, e)) in
      (suc n, omega arith, found)
]

drop-drop : (m n k : ℕ) (t : Text) → k ≡ n + m → drop m (drop n t) ≡ drop k t
drop-drop m zero k t e = let e' : m ≡ k = omega arith in ap (λ i. drop i t) e'
drop-drop m (suc n) zero t e = absurd (omega arith)
drop-drop zero (suc n) (suc k) [] e = refl
drop-drop (suc m) (suc n) (suc k) [] e = refl
drop-drop m (suc n) (suc k) (c ∷ t) e = drop-drop m n k t (omega arith)

drop_comm : (m n : ℕ) (t : Text) → drop m (drop n t) ≡ drop n (drop m t)
drop_comm m n t = drop-drop m n (n + m) t refl ∙ sym (drop-drop n m (n + m) t (omega arith))

pub drop-eq_cons :
    (n : ℕ) (t : Text) (c : ℕ) (cs : Text)
    → drop n t ≡ c ∷ cs
    → (drop (suc n) t ≡ cs) × (suc n ≤ length t)
drop-eq_cons zero [] c cs e = cc
drop-eq_cons zero (d ∷ t) c cs e = ground (arith, e)
drop-eq_cons (suc n) [] c cs e = cc
drop-eq_cons (suc n) (d ∷ t) c cs e = let (h, l) = drop-eq_cons n t c cs e in (h, omega arith)

-- What the star still has to try.
abbrev pub retry : Text → Text → Bool
retry behind [] = false
retry behind (c ∷ taken) = any_suffix (glob behind) taken

abbrev pub answer : Text → Text → Option (Text × Text) → Bool
answer p t none = glob p t
answer p t (some (behind, taken)) = glob p t || retry behind taken

pub glob-star : (ps u : Text) → glob (b'*' ∷ ps) u ≡ any_suffix (glob ps) u
unfolding glob
glob-star ps [] = refl
glob-star ps (c ∷ u) = refl

-- The pattern behind the star has been matched up to `p`, against the text from `taken` to `t`.
pub record IsBetween (behind taken p t : Text) : Type 0 where
  pub read : Text
  pub pattern_eq : behind ≡ read ++ p
  pub text_eq : drop (length read) taken ≡ t
  pub fits : length read ≤ length taken
  pub star_free : StarFree read
  pub text_free : StarFree taken

-- What a later try of the star would leave for the pattern.
retry-found :
    (behind taken p t : Text)
    → IsBetween behind taken p t
    → retry behind taken ≡ true
    → (n : ℕ) × (glob p (drop n (drop 1 t)) ≡ true) × (1 ≤ length t)
retry-found behind [] p t b h = cc
retry-found behind (c ∷ taken) p t b h =
    let (n, le, found) = any_suffix-found (glob behind) taken h in
    let (fits, left) = glob-skip b.read p (drop n taken) b.star_free (rw (← b.pattern_eq) found) in
    let moved : drop (length b.read) (drop n (drop 1 (c ∷ taken))) ≡ drop n (drop 1 t) =
      drop_comm (length b.read) n (drop 1 (c ∷ taken))
      ∙ ap (drop n) (drop_comm (length b.read) 1 (c ∷ taken) ∙ ap (drop 1) b.text_eq) in
    (
      n,
      rw (← moved) left,
      omega (
        arith,
        fits,
        le,
        length-drop n taken,
        length-drop (length b.read) (c ∷ taken),
        ap length b.text_eq,
      ),
    )

pub retry-at_end :
    (behind taken p : Text) → IsBetween behind taken p [] → retry behind taken ≡ false
retry-at_end behind taken p b = elim (Bool-cases (retry behind taken)) [
  | inl e ↦ let (n, found, le) = retry-found behind taken p [] b e in absurd (omega arith)
  | inr e ↦ e
]

-- A second star serves for the first.
pub retry-star :
    (behind taken ps t : Text)
    → IsBetween behind taken (b'*' ∷ ps) t
    → retry behind taken ≡ true
    → glob (b'*' ∷ ps) t ≡ true
retry-star behind taken ps t b h =
    let (n, found, le) = retry-found behind taken (b'*' ∷ ps) t b h in
    rw (glob-star ps t) (
      any_suffix-drop (glob ps) 1 t
        (any_suffix-drop (glob ps) n (drop 1 t) (rw (← glob-star ps (drop n (drop 1 t))) found)))

pub lex-lt : (x y c d w : ℕ) → x < y → c < w → x * w + c < y * w + d
lex-lt x y c d w h k = grind arith
