-- ===== src/Ring/Lines.antt =====
-- The index of complete lines: what each entry says of the stream.
use rsupervisord.Prelude.{
  ℕ, ◌+◌, ◌-◌, ◌≤◌, ◌<◌, ◌≡◌, ◌≢◌, refl, ◌∙◌, some, List, [], ◌∷◌, ◌++◌, append-nil, append_assoc,
  arith, ◌==◌, ==_iff, Bool-cases, inl, inr, length, get_elem?, get_elem?-append, length-append,
  All, All-append, u64, u64_mod, u64_lem,
}
use rsupervisord.Ring.{scan}

-- No newline stands at an offset from `s` up to `e`.
abbrev pub Unbroken : List ℕ → ℕ → ℕ → Type 0
Unbroken h s e = (k : ℕ) → s ≤ k → k < e → get_elem? h k ≢ some b'\n'

-- The bytes from `s` up to `e` are one line: the last of them is a newline, and no other.
pub record IsLine (h : List ℕ) (line : ℕ × ℕ) : Type 0 where
  pub inside : line.0 < line.1
  pub written : line.1 ≤ length h
  pub ends : get_elem? h (line.1 - 1) ≡ some b'\n'
  pub unbroken : Unbroken h line.0 (line.1 - 1)

-- Each line begins where the one before it ends, and the open line where the last ends.
abbrev pub Linked : List (ℕ × ℕ) → ℕ → Type 0
Linked [] cls = Unit
Linked ((s, e) ∷ []) cls = e ≡ cls
Linked ((s, e) ∷ (s', e') ∷ rest) cls = (e ≡ s') × Linked ((s', e') ∷ rest) cls

pub record Indexed (h : List ℕ) (idx : List (ℕ × ℕ)) (cls : ℕ) : Type 0 where
  pub lines : All (IsLine h) idx
  pub linked : Linked idx cls
  pub started : cls ≤ length h
  pub open_line : Unbroken h cls (length h)

get_elem?-append_left : (h t : List ℕ) (k : ℕ) → k < length h → get_elem? (h ++ t) k ≡ get_elem? h k
get_elem?-append_left h t k lt = ground (arith, get_elem?-append h t k)

IsLine-append : (h t : List ℕ) {line : ℕ × ℕ} → IsLine h line → IsLine (h ++ t) line
IsLine-append h t {line} l = record {
  inside = l.inside;
  written = omega (arith, l.written, length-append h t);
  ends = rw (get_elem?-append_left h t (line.1 - 1) (omega (arith, l.inside, l.written))) l.ends;
  unbroken =
      λ k lo hi. rw (get_elem?-append_left h t k (omega (arith, l.written))) (l.unbroken k lo hi);
}

All-IsLine-append :
    (h t : List ℕ) (idx : List (ℕ × ℕ)) → All (IsLine h) idx → All (IsLine (h ++ t)) idx
All-IsLine-append h t [] a = tt
All-IsLine-append h t (x ∷ xs) a = (IsLine-append h t a.0, All-IsLine-append h t xs a.1)

Linked-snoc : (idx : List (ℕ × ℕ)) (s e : ℕ) → Linked idx s → Linked (idx ++ (s, e) ∷ []) e
Linked-snoc [] s e l = refl
Linked-snoc ((a, b) ∷ []) s e l = (l, refl)
Linked-snoc ((a, b) ∷ (c, d) ∷ rest) s e l = (l.0, Linked-snoc ((c, d) ∷ rest) s e l.1)

module _ (h : List ℕ) (b : ℕ) {idx : List (ℕ × ℕ)} {cls : ℕ} (i : Indexed h idx cls) where
  abbrev longer : List ℕ
  longer = h ++ b ∷ []

  -- One byte: a newline closes the open line, any other byte extends it.
  extend-Indexed : b ≢ b'\n' → Indexed longer idx cls
  extend-Indexed ne = record {
    lines = All-IsLine-append h (b ∷ []) idx i.lines;
    linked = i.linked;
    started = omega (arith, i.started, length-append h (b ∷ []));
    open_line = λ k lo hi e.
        ground (arith, i.open_line k, get_elem?-append h (b ∷ []) k, length-append h (b ∷ []));
  }

  close-Indexed : b ≡ b'\n' → Indexed longer (idx ++ (cls, length h + 1) ∷ []) (length h + 1)
  close-Indexed e = record {
    lines =
        All-append (IsLine longer) idx _ (All-IsLine-append h (b ∷ []) idx i.lines) (closed, tt);
    linked = Linked-snoc idx cls (length h + 1) i.linked;
    started = omega (arith, length-append h (b ∷ []));
    open_line = λ k lo hi. absurd (omega (arith, length-append h (b ∷ [])));
  }
    where
      closed : IsLine longer (cls, length h + 1)
      closed = record {
        inside = omega (arith, i.started);
        written = omega (arith, length-append h (b ∷ []));
        ends = ground (arith, get_elem?-append h (b ∷ []) (length h + 1 - 1));
        unbroken = λ k lo hi q. ground (arith, i.open_line k, get_elem?-append h (b ∷ []) k);
      }

pub scan-Indexed :
    (bytes h : List ℕ) (start_w n : ℕ) {idx : List (ℕ × ℕ)} {cls : ℕ}
    → start_w + n ≡ length h
    → length h + length bytes < u64_mod
    → Indexed h idx cls
    → Indexed (h ++ bytes) (scan start_w n bytes cls idx).0 (scan start_w n bytes cls idx).1
unfolding scan
scan-Indexed [] h w n at bound i = rw append-nil i
scan-Indexed (b ∷ bs) h w n {idx} {cls} at bound i =
    let len = length-append h (b ∷ []) in
    let e : u64 (w + n + 1) ≡ length h + 1 = u64_lem _ (omega arith) ∙ omega arith in
    rw (← append_assoc h (b ∷ []) bs) (elim (Bool-cases (b == b'\n')) [
      | inl t ↦
          rw (t, e)
            (scan-Indexed bs (h ++ b ∷ []) w (n + 1) (omega (arith, len)) (omega (arith, len))
              (close-Indexed h b i ((==_iff b b'\n').0 t)))
      | inr f ↦ rw f (
          scan-Indexed bs (h ++ b ∷ []) w (n + 1) (omega (arith, len)) (omega (arith, len))
            (extend-Indexed h b i (λ q. ground arith)))
    ])
