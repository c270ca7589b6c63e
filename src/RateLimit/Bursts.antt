-- ===== src/RateLimit/Bursts.antt =====
-- Sequences of calls of `check` of services/api/netops_api/core/rate_limit.py.
use netops_copilot.Prelude.{
  ℕ, suc, ◌+◌, ◌*◌, ◌≤◌, ◌<◌, ◌==◌, nat_eq, list_eq, list_beq_iff, leb, ◌≡◌, refl, inl, inr, true,
  false, Bool-cases, ◌⊎◌, ◌&&◌, Option, none, some, List, [], ◌∷◌, if◌then◌else◌, arith,
}
use netops_copilot.Prelude.Lists.{All}
use netops_copilot.Prelude.Text.{Text}
use netops_copilot.RateLimit.Windows.{
  Window, FixedWindowRateLimiter, second, is_expired, prune, get, set, consume, started, stored,
  check,
}

get-set : (key : Text) (w : Window) (ws : List (Text × Window)) → get key (set key w ws) ≡ some w
unfolding get set
get-set key w [] = rw ((list_beq_iff key key).1 refl) refl
get-set key w ((k, v) ∷ rest) = elim (Bool-cases (k == key)) [
  | inl p ↦ rw p (rw p refl)
  | inr p ↦ rw p (rw (p, get-set key w rest) refl)
]

get-set_other :
    (key other : Text) (w : Window) (ws : List (Text × Window))
    → (other == key) ≡ false
    → get key (set other w ws) ≡ get key ws
unfolding get set
get-set_other key other w [] h = rw h refl
get-set_other key other w ((k, v) ∷ rest) h = elim (Bool-cases (k == other)) [
  | inl p ↦ let same = (list_beq_iff k other).0 p in rw (p, same, h) refl
  | inr p ↦ rw p (rw (get-set_other key other w rest h) refl)
]

-- A window that has not run out is still there after the pruning.
get-prune :
    (window_seconds now : ℕ) (key : Text) (w : Window) (ws : List (Text × Window))
    → get key ws ≡ some w
    → is_expired window_seconds now w ≡ false
    → get key (prune window_seconds now ws) ≡ some w
unfolding get prune
get-prune n now key w [] h live = cc h
get-prune n now key w ((k, v) ∷ rest) h live = elim (Bool-cases (k == key)) [
  | inl p ↦ let e = rw p at h in let same : v ≡ w = cc e in rw (same, live) (rw p refl)
  | inr p ↦ elim (Bool-cases (is_expired n now v)) [
    | inl q ↦ rw q (get-prune n now key w rest (rw p at h) live)
    | inr q ↦ rw q (rw p (get-prune n now key w rest (rw p at h) live))
  ]
]

pruned_none :
    (key : Text) (now window_seconds : ℕ) (ws : List (Text × Window))
    → get key ws ≡ none
    → get key (prune window_seconds now ws) ≡ none
unfolding get prune
pruned_none key now n [] h = refl
pruned_none key now n ((k, v) ∷ rest) h = elim (Bool-cases (k == key)) [
  | inl p ↦ let e = rw p at h in cc e
  | inr p ↦ elim (Bool-cases (is_expired n now v)) [
    | inl q ↦ rw q (pruned_none key now n rest (rw p at h))
    | inr q ↦ rw q (rw p (pruned_none key now n rest (rw p at h)))
  ]
]

-- How many requests of a key are allowed in a sequence of calls of `check`.
unfoldable pub allowed : Text → List (Text × ℕ) → FixedWindowRateLimiter → ℕ
allowed key [] l = 0
allowed key ((k, now) ∷ calls) l =
    let rest = allowed key calls (check k now l).1 in
    if (k == key) && (check k now l).0.0 then suc rest else rest

module _ (l : FixedWindowRateLimiter) (key : Text) (w : Window) (now : ℕ) where
  check-other :
      (k : Text)
      → get key l.windows ≡ some w
      → is_expired l.window_seconds now w ≡ false
      → (k == key) ≡ false
      → get key (check k now l).1.windows ≡ some w
  unfolding check
  check-other k found live other =
      let there = get-prune l.window_seconds now key w l.windows found live in
      kept
        (consume l.max_requests l.window_seconds now
          (get k (prune l.window_seconds now l.windows))).1
        there
    where
      kept :
          (o : Option Window)
          → get key (prune l.window_seconds now l.windows) ≡ some w
          → get key (stored k o (prune l.window_seconds now l.windows)) ≡ some w
      kept none h = h
      kept (some v) h = rw (get-set_other key k v (prune l.window_seconds now l.windows) other) h

  check-same :
      get key l.windows ≡ some w
      → is_expired l.window_seconds now w ≡ false
      → (((check key now l).0.0 ≡ true)
          × (w.requests < l.max_requests)
          × (get key (check key now l).1.windows ≡ some (record w { requests = suc w.requests })))
        ⊎ (((check key now l).0.0 ≡ false) × (get key (check key now l).1.windows ≡ some w))
  unfolding check consume
  check-same found live =
      let there = get-prune l.window_seconds now key w l.windows found live in
      elim (Bool-cases (leb l.max_requests w.requests)) [
        | inl full ↦ inr (rw (there, live, full) (refl, there))
        | inr free ↦ inl (
            rw (there, live, free)
              (
                refl,
                ground (arith, free),
                get-set key (record w { requests = suc w.requests })
                    (prune l.window_seconds now l.windows),
              ))
      ]

-- While a key's window that started at some time has not run out, the requests that it has counted
-- and all that are still allowed for the key, among any calls for any keys before its end, add up
-- to at most the maximum.
pub allowed-window :
    (key : Text) (calls : List (Text × ℕ)) (l : FixedWindowRateLimiter) (w : Window)
    → get key l.windows ≡ some w
    → w.requests ≤ l.max_requests
    → All (λ (c : Text × ℕ). c.1 < w.started_at + l.window_seconds * second) calls
    → w.requests + allowed key calls l ≤ l.max_requests
unfolding allowed check
allowed-window key [] l w found small before = omega (arith, small)
allowed-window key ((k, now) ∷ calls) l w found small before =
    let live : is_expired l.window_seconds now w ≡ false = ground (arith, before.0) in
    elim (Bool-cases (k == key)) [
      | inr p ↦ rw p (
          allowed-window key calls (check k now l).1 w (check-other l key w now k found live p)
            small before.1)
      | inl p ↦
          let same = (list_beq_iff k key).0 p in
          let self = (list_beq_iff key key).1 refl in
          rw same (elim (check-same l key w now found live) [
            | inr (refused, kept) ↦
                rw refused
                  (rw self (allowed-window key calls (check key now l).1 w kept small before.1))
            | inl (granted, room, counted) ↦ rw granted (
                rw self (
                  omega (
                    arith,
                    allowed-window key calls (check key now l).1
                        (record w { requests = suc w.requests }) counted room before.1,
                  )))
          ])
    ]

-- If a key has no window, then of any calls for any keys, the first of them for this key, that are
-- made before the window that the first one starts has run out, at most the maximum are allowed
-- for the key, provided that the maximum is positive.
pub allowed-opened :
    (key : Text) (now : ℕ) (calls : List (Text × ℕ)) (l : FixedWindowRateLimiter)
    → get key l.windows ≡ none
    → 1 ≤ l.max_requests
    → All (λ (c : Text × ℕ). c.1 < now + l.window_seconds * second) calls
    → allowed key ((key, now) ∷ calls) l ≤ l.max_requests
unfolding allowed check consume
allowed-opened key now calls l fresh positive before =
    let self = (list_beq_iff key key).1 refl in
    let gone = pruned_none key now l.window_seconds l.windows fresh in
    let more =
      allowed-window key calls
        (record l { windows = set key (started now) (prune l.window_seconds now l.windows) })
        (started now) (get-set key (started now) (prune l.window_seconds now l.windows)) positive
        before in
    rw (gone, self) (omega (arith, more))
