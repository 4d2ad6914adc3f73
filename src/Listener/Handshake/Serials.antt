-- ===== src/Listener/Handshake/Serials.antt =====
-- Lists of events whose pool serials rise.
use rsupervisord.Prelude.{
  ℕ, ◌+◌, ◌≤◌, ◌≡◌, inl, inr, refl, arith, Option, none, some, List, [], ◌∷◌, ◌++◌, length,
  pop_back, leb, Bool-cases, append_assoc,
}
use rsupervisord.Listener.Wire.{EventEnvelope}
use rsupervisord.Listener.Pool.{push_bounded, pop_front}
use rsupervisord.Listener.Handshake.Conserve.{held}

-- Pool serials that rise strictly, from `lo` on and below `hi`.
abbrev pub Rising : ℕ → List EventEnvelope → ℕ → Type 0
Rising lo [] hi = lo ≤ hi
Rising lo (e ∷ es) hi = (lo ≤ e.pool_serial) × Rising (e.pool_serial + 1) es hi

pub Rising-le : (lo : ℕ) (es : List EventEnvelope) (hi : ℕ) → Rising lo es hi → lo ≤ hi
Rising-le lo [] hi r = r
Rising-le lo (e ∷ es) hi r = omega (arith, r.0, Rising-le (e.pool_serial + 1) es hi r.1)

pub Rising-from :
    (lo lo' : ℕ) (es : List EventEnvelope) (hi : ℕ) → lo' ≤ lo → Rising lo es hi → Rising lo' es hi
Rising-from lo lo' [] hi le r = omega (arith, r)
Rising-from lo lo' (e ∷ es) hi le r = (omega (arith, r.0), r.1)

pub Rising-pop_back :
    (lo : ℕ) (es : List EventEnvelope) (hi : ℕ) → Rising lo es hi → Rising lo (pop_back es) hi
Rising-pop_back lo [] hi r = r
Rising-pop_back lo (e ∷ []) hi r = omega (arith, r.0, r.1)
Rising-pop_back lo (e ∷ x ∷ xs) hi r = (r.0, Rising-pop_back (e.pool_serial + 1) (x ∷ xs) hi r.1)

pub Rising-tail :
    (lo : ℕ) (e : EventEnvelope) (es : List EventEnvelope) (hi : ℕ)
    → Rising lo (e ∷ es) hi
    → Rising lo es hi
Rising-tail lo e es hi r = Rising-from (e.pool_serial + 1) lo es hi (omega (arith, r.0)) r.1

pub Rising-append :
    (lo : ℕ) (es : List EventEnvelope) (hi : ℕ) (e : EventEnvelope)
    → Rising lo es hi
    → e.pool_serial ≡ hi
    → Rising lo (es ++ e ∷ []) (hi + 1)
Rising-append lo [] hi e r at = (omega (arith, r, at), omega (arith, at))
Rising-append lo (x ∷ xs) hi e r at = (r.0, Rising-append (x.pool_serial + 1) xs hi e r.1 at)

-- Pool serials that never fall, from `lo` on.
abbrev pub Climbs : ℕ → List EventEnvelope → Type 0
Climbs lo [] = Unit
Climbs lo (e ∷ es) = (lo ≤ e.pool_serial) × Climbs e.pool_serial es

abbrev pub last_serial : ℕ → List EventEnvelope → ℕ
last_serial lo [] = lo
last_serial lo (e ∷ es) = last_serial e.pool_serial es

pub Climbs-append :
    (lo : ℕ) (es : List EventEnvelope) (e : EventEnvelope)
    → Climbs lo es
    → last_serial lo es ≤ e.pool_serial
    → Climbs lo (es ++ e ∷ []) × (last_serial lo (es ++ e ∷ []) ≡ e.pool_serial)
Climbs-append lo [] e c le = ((le, tt), refl)
Climbs-append lo (x ∷ xs) e c le =
    let (c', l) = Climbs-append x.pool_serial xs e c.1 le in ((c.0, c'), l)

pub push-Rising :
    (o : Option EventEnvelope) (size lo hi : ℕ) (es : List EventEnvelope) (e : EventEnvelope)
    → Rising lo (held o ++ es) hi
    → e.pool_serial ≡ hi
    → Rising lo (held o ++ push_bounded size es e) (hi + 1)
unfolding push_bounded
push-Rising o size lo hi es e r at = elim (Bool-cases (leb size (length es))) [
  | inl t ↦ rw t (
      rw (← append_assoc (held o) (pop_front es) (e ∷ []))
        (Rising-append lo (held o ++ pop_front es) hi e (front o es r) at))
  | inr f ↦
      rw f (rw (← append_assoc (held o) es (e ∷ [])) (Rising-append lo (held o ++ es) hi e r at))
]
  where
    front :
        (o : Option EventEnvelope) (es : List EventEnvelope)
        → Rising lo (held o ++ es) hi
        → Rising lo (held o ++ pop_front es) hi
    front none [] q = q
    front none (x ∷ xs) q = Rising-tail lo x xs hi q
    front (some y) [] q = q
    front (some y) (x ∷ xs) q = (q.0, Rising-tail (y.pool_serial + 1) x xs hi q.1)
