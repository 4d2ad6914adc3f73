-- ===== src/Ini/Wildcard/Loop.antt =====
-- The loop of `wildcard_match` gives what the recursive matcher gives.
use rsupervisord.Prelude.{
  ℕ, zero, suc, ◌+◌, ◌-◌, ◌*◌, ◌≤◌, ◌<◌, ◌≡◌, refl, sym, ap, ◌∙◌, arith, Bool, true, false, ◌||◌,
  Option, none, some, [], ◌∷◌, ◌++◌, Text, ◌==◌, length, drop, Bool-cases, inl, inr, length-drop,
  ==_iff, subst, length-append, append_assoc,
}
use rsupervisord.Ini.Wildcard.{match_loop, wildcard_fuel, wildcard_match}
use rsupervisord.Ini.Wildcard.Reference.{
  glob, any_suffix, StarFree, retry, answer, IsBetween, retry-at_end, retry-star, lex-lt,
  drop-eq_cons, only_stars-eq-glob,
}

-- The star's part of the state is right, and the sizes that bound the rounds left.
abbrev IsRight : Text → Text → Option (Text × Text) → ℕ → ℕ → Type 0
IsRight p t none a b = (length p < a) × (length t ≤ b) × StarFree t
IsRight p t (some (behind, taken)) a b =
    IsBetween behind taken p t × (length behind ≡ a) × (length taken ≡ b) × StarFree t

StarFree-snoc : (w : Text) (p : ℕ) → StarFree w → (p == b'*') ≡ false → StarFree (w ++ p ∷ [])
StarFree-snoc [] p s h = (h, tt)
StarFree-snoc (c ∷ w) p s h = (s.0, StarFree-snoc w p s.1 h)

StarFree-tail : (t : Text) → StarFree t → StarFree (drop 1 t)
StarFree-tail [] h = tt
StarFree-tail (c ∷ t) h = h.1

IsBetween-step :
    {behind taken ps cs : Text} {p c : ℕ}
    → IsBetween behind taken (p ∷ ps) (c ∷ cs)
    → (p == b'*') ≡ false
    → IsBetween behind taken ps cs
IsBetween-step {taken} {ps} {cs} {p} {c} b ns =
    let (left, le) = drop-eq_cons (length b.read) taken c cs b.text_eq in
    let longer : length (b.read ++ p ∷ []) ≡ suc (length b.read) =
      omega (arith, length-append b.read (p ∷ [])) in
    record {
      read = b.read ++ p ∷ [];
      pattern_eq = b.pattern_eq ∙ sym (append_assoc b.read (p ∷ []) ps);
      text_eq = rw longer left;
      fits = omega arith;
      star_free = StarFree-snoc b.read p b.star_free ns;
      text_free = b.text_free;
    }

IsBetween-again : (behind taken : Text) → StarFree taken → IsBetween behind taken behind taken
IsBetween-again behind taken free = record {
  read = [];
  pattern_eq = refl;
  text_eq = refl;
  fits = omega arith;
  star_free = tt;
  text_free = free;
}

retry-again :
    (behind taken : Text)
    → 1 ≤ length taken
    → retry behind taken ≡ answer behind (drop 1 taken) (some (behind, drop 1 taken))
retry-again behind [] h = absurd (omega arith)
retry-again behind (c ∷ []) h = ground arith
retry-again behind (c ∷ d ∷ taken) h = refl

-- A character that a pattern's character takes is no star, in a text without stars.
taken-ne-star :
    (p c : ℕ) → ((p == b'?') || (p == c)) ≡ true → (c == b'*') ≡ false → (p == b'*') ≡ false
taken-ne-star p c e h = ground (arith, e, h)

-- What the loop gives with less fuel.
abbrev Answers : ℕ → ℕ → Type 0
Answers fuel width =
    (p t : Text) (star : Option (Text × Text)) (a b : ℕ)
    → IsRight p t star a b
    → b < width
    → (a * width + b) * width + length t < fuel
    → match_loop fuel p t star ≡ some (answer p t star)

module _ (fuel width : ℕ) (ih : Answers fuel width) where
  again :
      (behind taken : Text) (p t : Text) (a b : ℕ)
      → IsBetween behind taken p t
      → 1 ≤ length t
      → length behind ≡ a
      → length taken ≡ b
      → b < width
      → (a * width + b) * width + length t < suc fuel
      → match_loop fuel behind (drop 1 taken) (some (behind, drop 1 taken))
        ≡ some (retry behind taken)
  again behind taken p t a b s ne eqa eq lt enough =
      let room : 1 ≤ length taken =
        omega (arith, length-drop (length s.read) taken, ap length s.text_eq) in
      let shorter : length (drop 1 taken) ≡ b - 1 = omega (arith, length-drop 1 taken) in
      let less =
        lex-lt (a * width + (b - 1)) (a * width + b) (length (drop 1 taken)) (length t) width
          (omega arith) (omega arith) in
      let free = StarFree-tail taken s.text_free in
      ih behind (drop 1 taken) (some (behind, drop 1 taken)) a (b - 1)
        (IsBetween-again behind (drop 1 taken) free, eqa, shorter, free) (omega arith) (omega arith)
      ∙ ap some (sym (retry-again behind taken room))

  open_star :
      (ps t : Text) (a b : ℕ)
      → length ps < a
      → StarFree t
      → length t < width
      → (a * width + b) * width + length t < suc fuel
      → match_loop fuel ps t (some (ps, t)) ≡ some (answer ps t (some (ps, t)))
  open_star ps t a b lt free small enough =
      let first = lex-lt (length ps) a (length t) b width lt small in
      let less =
        lex-lt (length ps * width + length t) (a * width + b) (length t) (length t) width first
          small in
      ih ps t (some (ps, t)) (length ps) (length t) (IsBetween-again ps t free, refl, refl, free)
        small (omega arith)

glob-taken :
    (p c : ℕ) (ps cs : Text)
    → ((p == b'?') || (p == c)) ≡ true
    → (c == b'*') ≡ false
    → glob ps cs ≡ glob (p ∷ ps) (c ∷ cs)
unfolding glob
glob-taken p c ps cs e h = ground (arith, taken-ne-star p c e h)

glob-opened :
    (p : ℕ) (ps : Text) (c : ℕ) (cs : Text)
    → (p == b'*') ≡ true
    → (glob ps (c ∷ cs) || any_suffix (glob ps) cs) ≡ glob (p ∷ ps) (c ∷ cs)
unfolding glob
glob-opened p ps c cs e = rw e refl

glob-nil : (c : ℕ) (cs : Text) → glob [] (c ∷ cs) ≡ false
unfolding glob
glob-nil c cs = refl

absorbed : (g r : Bool) → (r ≡ true → g ≡ true) → g ≡ (g || r)
absorbed true r h = refl
absorbed false true h = h refl
absorbed false false h = refl

glob-refused :
    (p c : ℕ) (ps cs : Text)
    → ((p == b'?') || (p == c)) ≡ false
    → (p == b'*') ≡ false
    → glob (p ∷ ps) (c ∷ cs) ≡ false
unfolding glob
glob-refused p c ps cs e h = rw h (rw e refl)

match_loop-answer : (fuel width : ℕ) → Answers fuel width
unfolding match_loop
match_loop-answer zero width p t star a b r lt enough = absurd (omega arith)
match_loop-answer (suc fuel) width p [] none a b r lt enough = ap some (only_stars-eq-glob p)
match_loop-answer (suc fuel) width p [] (some (behind, taken)) a b r lt enough =
    ground (arith, only_stars-eq-glob p, retry-at_end behind taken p r.0)
match_loop-answer (suc fuel) width [] (c ∷ cs) none a b r lt enough = ap some (sym (glob-nil c cs))
match_loop-answer (suc fuel) width [] (c ∷ cs) (some (behind, taken)) a b r lt enough =
    rw (glob-nil c cs) (
      again fuel width (match_loop-answer fuel width) behind taken [] (c ∷ cs) a b r.0 (omega arith)
        r.1 r.2 lt enough)
match_loop-answer (suc fuel) width (p ∷ ps) (c ∷ cs) none a b r lt enough =
    elim (Bool-cases ((p == b'?') || (p == c))) [
      | inl e ↦ rw e (
          match_loop-answer fuel width ps cs none a b (omega arith, omega arith, r.2.1) lt
            (omega arith)
          ∙ ap some (glob-taken p c ps cs e (r.2).0))
      | inr e ↦ rw e (elim (Bool-cases (p == b'*')) [
        | inl star ↦ rw star (
            open_star fuel width (match_loop-answer fuel width) ps (c ∷ cs) a b (omega arith) r.2
              (omega arith) enough
            ∙ ap some (glob-opened p ps c cs star))
        | inr other ↦ rw other (ap some (sym (glob-refused p c ps cs e other)))
      ])
    ]
match_loop-answer (suc fuel) width (p ∷ ps) (c ∷ cs) (some (behind, taken)) a b r lt enough =
    elim (Bool-cases ((p == b'?') || (p == c))) [
      | inl e ↦ rw e (
          match_loop-answer fuel width ps cs (some (behind, taken)) a b
            (IsBetween-step r.0 (taken-ne-star p c e (r.3).0), r.1, r.2, (r.3).1) lt (omega arith)
          ∙ ap (λ g. some (g || retry behind taken)) (glob-taken p c ps cs e (r.3).0))
      | inr e ↦ rw e (elim (Bool-cases (p == b'*')) [
        | inl star ↦
            let eq = (==_iff p b'*').0 star in
            let at_star = subst (λ q. IsBetween behind taken (q ∷ ps) (c ∷ cs)) eq r.0 in
            rw star (
              open_star fuel width (match_loop-answer fuel width) ps (c ∷ cs) a b
                (omega (arith, r.1, ap length (r.0).pattern_eq, length-append (r.0).read (p ∷ ps)))
                (r.3)
                (omega (arith, r.2, ap length (r.0).text_eq, length-drop (length (r.0).read) taken))
                enough
              ∙ ap some (
                  glob-opened p ps c cs star
                  ∙ absorbed _ _ (λ h. rw eq (retry-star behind taken ps (c ∷ cs) at_star h))))
        | inr other ↦ rw other (
            again fuel width (match_loop-answer fuel width) behind taken (p ∷ ps) (c ∷ cs) a b r.0
              (omega arith) r.1 r.2 lt enough
            ∙ ap (λ g. some (g || retry behind taken)) (sym (glob-refused p c ps cs e other)))
      ])
    ]

-- On texts without a star the loop ends, and gives what the pattern means.
pub wildcard_match-eq-glob :
    (pattern text : Text) → StarFree text → wildcard_match pattern text ≡ some (glob pattern text)
unfolding wildcard_match wildcard_fuel
wildcard_match-eq-glob pattern text free =
    match_loop-answer (wildcard_fuel pattern text) (length text + 1) pattern text none
      (suc (length pattern)) (length text) (omega arith, omega arith, free) (omega arith)
      (omega arith)
