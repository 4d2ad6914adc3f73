-- ===== src/Listener/Pool/Newest.antt =====
-- What a pool holds of the events it was offered.
use rsupervisord.Prelude.{
  ℕ, zero, suc, ◌+◌, ◌-◌, ◌≤◌, ◌<◌, ◌≡◌, refl, sym, arith, List, [], ◌∷◌, ◌++◌, append-nil,
  append_assoc, Text, length, length-append, length-drop, drop, filterb, leb, leb→le, leb→lt,
  Bool-cases, inl, inr, max, u64_mod, u64_lem,
}
use rsupervisord.Listener.Wire.{EventEnvelope, next_serial}
use rsupervisord.Listener.Events.{event_matches_subscription}
use rsupervisord.Listener.Pool.{Pool, new, accept_event, push_bounded, pop_front}

-- `accept_event` on each of the names with its payload.
unfoldable pub accept_all : List (Text × Text) → ℕ × Pool → ℕ × Pool
accept_all [] s = s
accept_all ((name, payload) ∷ rest) s = accept_all rest (accept_event name payload s)

-- The events as envelopes, with serials that count up.
abbrev pub numbered :
    (pool : Text) (global_serial pool_serial : ℕ) → List (Text × Text) → List EventEnvelope
numbered pool g n [] = []
numbered pool g n ((name, payload) ∷ rest) =
    record { global_serial = g; pool_serial = n; pool = pool; event_name = name; payload = payload }
    ∷ numbered pool (g + 1) (n + 1) rest

abbrev pub matching : List Text → List (Text × Text) → List (Text × Text)
matching events es = filterb (λ e. event_matches_subscription e.0 events) es

drop_left :
    (n : ℕ) (xs ys : List EventEnvelope) → n ≤ length xs → drop n (xs ++ ys) ≡ drop n xs ++ ys
drop_left zero xs ys le = refl
drop_left (suc n) [] ys le = absurd (omega arith)
drop_left (suc n) (x ∷ xs) ys le = drop_left n xs ys (omega arith)

drop_nil : (n : ℕ) → [] ≡ drop {A = EventEnvelope} n []
drop_nil zero = refl
drop_nil (suc n) = refl

pop_front-drop : (n : ℕ) (xs : List EventEnvelope) → pop_front (drop n xs) ≡ drop (suc n) xs
pop_front-drop zero [] = refl
pop_front-drop zero (x ∷ xs) = refl
pop_front-drop (suc n) [] = refl
pop_front-drop (suc n) (x ∷ xs) = pop_front-drop n xs

-- A push keeps the last `size` of the elements so far.
push_last :
    (size : ℕ) (xs : List EventEnvelope) (e : EventEnvelope)
    → 0 < size
    → push_bounded size (drop (length xs - size) xs) e
      ≡ drop (length (xs ++ e ∷ []) - size) (xs ++ e ∷ [])
unfolding push_bounded
push_last size xs e p =
    let l = length-append xs (e ∷ []) in
    let d = length-drop (length xs - size) xs in
    elim (Bool-cases (leb size (length (drop (length xs - size) xs)))) [
      | inl t ↦
          let full = leb→le _ _ t in
          let n : length (xs ++ e ∷ []) - size ≡ suc (length xs - size) =
            omega (arith, l, d, full) in
          rw (t, pop_front-drop (length xs - size) xs, n)
            (sym (drop_left (suc (length xs - size)) xs (e ∷ []) (omega (arith, d, full))))
      | inr f ↦
          let room = leb→lt _ _ f in
          let n : length (xs ++ e ∷ []) - size ≡ length xs - size = omega (arith, l, d, room) in
          rw (f, n) (sym (drop_left (length xs - size) xs (e ∷ []) (omega (arith, d, room))))
    ]

newest_from :
    (es : List (Text × Text)) (g : ℕ) (p : Pool) (xs : List EventEnvelope)
    → 0 < p.buffer_size
    → g + length es < u64_mod
    → p.pool_serial + length es < u64_mod
    → p.buffer ≡ drop (length xs - p.buffer_size) xs
    → let ys = numbered p.pool_name g p.pool_serial (matching p.events es) in
      (accept_all es (g, p)).1.buffer ≡ drop (length (xs ++ ys) - p.buffer_size) (xs ++ ys)
unfolding accept_all
newest_from [] g p xs pos small small' inv = rw append-nil inv
newest_from ((name, payload) ∷ es) g p xs pos small small' inv =
    elim (Bool-cases (event_matches_subscription name p.events)) [
      | inl m ↦
          let p' : Pool = record p {
            pool_serial = p.pool_serial + 1;
            buffer = push_bounded p.buffer_size p.buffer e;
          } in
          let done : accept_event name payload (g, p) ≡ (g + 1, p') =
            unfold accept_event next_serial in
            simp (
              m,
              u64_lem (g + 1) (omega (arith, small)),
              u64_lem (p.pool_serial + 1) (omega (arith, small')),
            ) in
          simp (m, done, ← append_assoc xs (e ∷ []) (rest (g + 1) (p.pool_serial + 1)))
            (newest_from es (g + 1) p' (xs ++ e ∷ []) pos (omega (arith, small))
              (omega (arith, small')) (rw inv (push_last p.buffer_size xs e pos)))
      | inr m ↦
          let done : accept_event name payload (g, p) ≡ (g, p) = unfold accept_event in simp m in
          simp (m, done)
            (newest_from es g p xs pos (omega (arith, small)) (omega (arith, small')) inv)
    ]
  where
    e : EventEnvelope
    e = record {
      global_serial = g;
      pool_serial = p.pool_serial;
      pool = p.pool_name;
      event_name = name;
      payload = payload;
    }

    rest : ℕ → ℕ → List EventEnvelope
    rest g n = numbered p.pool_name g n (matching p.events es)

-- Of the events offered to a new pool that match its subscriptions, numbered in turn by pool serials
-- from 0 and by global serials, the buffer holds exactly the newest `buffer_size` (one if that is
-- 0) in order, as long as the serials stay below 2 ^ 64.
pub accept_all-Newest :
    (pool_name server_identifier : Text) (events : List Text) (buffer_size g : ℕ)
    (es : List (Text × Text))
    → g + length es < u64_mod
    → let ys = numbered pool_name g 0 (matching events es) in
      (accept_all es (g, new pool_name server_identifier events buffer_size)).1.buffer
      ≡ drop (length ys - max buffer_size 1) ys
unfolding new
accept_all-Newest pool_name server_identifier events buffer_size g es small =
    newest_from es g _ [] (omega arith) small (omega (arith, small))
      (drop_nil (0 - max buffer_size 1))
