-- ===== src/Eventing/Invariant.antt =====
-- What holds of the connection at every moment.
use foto.Base.{
  ℕ, suc, ◌-◌, ◌*◌, ◌^◌, ◌≤◌, ◌≡◌, ◌⊎◌, inl, inr, refl, sym, ap, ◌∙◌, subst, arith, min, Bool, true,
  false, Bool-cases, ◌&&◌, none, some, if◌then◌else◌,
}
use foto.Base.Duration.{second}
use foto.Eventing.{
  max_delay, next_delay, Pc, dialing, waiting, installed, announcing, registered, replayed,
  finished, Eventing, Answer, connect, wait, register_projections, run, step_at, advance, Reach,
  start, later, publisher_or_nil,
}

-- The connector has not installed a connection yet.
abbrev pub is_early : Pc → Bool
is_early dialing = true
is_early waiting = true
is_early _ = false

abbrev Installed : Eventing → Type 0
Installed s =
    (s.stream ≡ some s.attempt) × (s.publisher ≡ some s.attempt) × (s.mux ≡ some s.attempt)

-- What is known at each place.
abbrev Known : Pc → Eventing → Type 0
Known dialing s =
    (s.stream ≡ none) × (s.mux ≡ none) × (s.held ≡ none) × (s.running ≡ false) × (s.armed ≡ false)
Known waiting s =
    (s.stream ≡ none) × (s.mux ≡ none) × (s.held ≡ none) × (s.running ≡ false) × (s.armed ≡ false)
Known installed s = Installed s × (s.held ≡ none) × (s.running ≡ false) × (s.armed ≡ false)
Known announcing s =
    Installed s × (s.held ≡ some s.attempt) × (s.running ≡ false) × (s.armed ≡ false)
Known registered s =
    Installed s
    × (s.held ≡ some s.attempt)
    × (s.subscribed ≡ true)
    × (s.running ≡ false)
    × (s.armed ≡ false)
Known replayed s =
    Installed s
    × (s.held ≡ some s.attempt)
    × (s.subscribed ≡ true)
    × (s.running ≡ true)
    × (s.armed ≡ false)
Known finished s =
    ((s.held ≡ none) × (s.armed ≡ false))
    ⊎ (Installed s
        × (s.held ≡ some s.attempt)
        × (s.subscribed ≡ true)
        × ((s.armed ≡ false) ⊎ (s.running ≡ true)))

Known-step :
    (p : Pc) (a : Answer) (s : Eventing)
    → s.pc ≡ p
    → Known p s
    → Known (step_at p a s).pc (step_at p a s)
unfolding step_at connect wait register_projections run
Known-step dialing a s e (st, mx, h, r, d) = elim (Bool-cases (a.dials && a.builds)) [
  | inl q ↦ rw (step_at, connect, q) ((refl, refl, refl), h, r, d)
  | inr q ↦ rw (step_at, connect, q) (st, mx, h, r, d)
]
Known-step waiting a s e (st, mx, h, r, d) = elim (Bool-cases a.cancelled) [
  | inl q ↦ rw (step_at, wait, q) (inl (h, d))
  | inr q ↦ rw (step_at, wait, q) (st, mx, h, r, d)
]
Known-step installed a s e (i, h, r, d) = (i, refl, r, d)
Known-step announcing a s e (i, h, r, d) =
    rw (step_at, register_projections, i.2) (i, h, refl, r, d)
Known-step registered a s e (i, h, u, r, d) = elim (Bool-cases a.runs) [
  | inl q ↦ rw (step_at, run, i.2, q) (i, h, u, refl, d)
  | inr q ↦ rw (step_at, run, i.2, q) (inr (i, h, u, inl d))
]
Known-step replayed a s e (i, h, u, r, d) = inr (i, h, u, inr r)
Known-step finished a s e k = subst (λ p. Known p s) (sym e) k

Reach-Known : {s : Eventing} → Reach s → Known s.pc s
unfolding advance
Reach-Known start = (refl, refl, refl, refl, refl)
Reach-Known (later {s} r a) = Known-step s.pc a s refl (Reach-Known r)

-- What the rest of the service may rely on.
pub record IsConsistent (s : Eventing) : Type 0 where
  -- The publisher that handlers see belongs to the connection whose stream and mux are installed.
  pub held_installed :
      (c : ℕ) → s.held ≡ some c → (s.stream ≡ some c) × (s.publisher ≡ some c) × (s.mux ≡ some c)
  -- Dead letters are counted only behind a replay of the subscribed projections.
  pub armed_running : s.armed ≡ true → (s.running ≡ true) × (s.subscribed ≡ true)

some-injective : {a b : ℕ} → some a ≡ some b → a ≡ b
some-injective h = cc

held_of :
    (s : Eventing)
    → Installed s
    → s.held ≡ some s.attempt
    → (c : ℕ) → s.held ≡ some c
    → (s.stream ≡ some c) × (s.publisher ≡ some c) × (s.mux ≡ some c)
held_of s (st, pb, mx) h c e =
    let same = ap some (some-injective (sym h ∙ e)) in (st ∙ same, pb ∙ same, mx ∙ same)

unarmed :
    (s : Eventing) → s.armed ≡ false → s.armed ≡ true → (s.running ≡ true) × (s.subscribed ≡ true)
unarmed s d e = absurd (cc (sym d ∙ e))

Known-IsConsistent : (p : Pc) (s : Eventing) → Known p s → IsConsistent s
Known-IsConsistent dialing s (st, mx, h, r, d) = record {
  held_installed = λ c e. absurd (cc (sym h ∙ e));
  armed_running = unarmed s d;
}
Known-IsConsistent waiting s (st, mx, h, r, d) = record {
  held_installed = λ c e. absurd (cc (sym h ∙ e));
  armed_running = unarmed s d;
}
Known-IsConsistent installed s (i, h, r, d) = record {
  held_installed = λ c e. absurd (cc (sym h ∙ e));
  armed_running = unarmed s d;
}
Known-IsConsistent announcing s (i, h, r, d) = record {
  held_installed = held_of s i h;
  armed_running = unarmed s d;
}
Known-IsConsistent registered s (i, h, u, r, d) = record {
  held_installed = held_of s i h;
  armed_running = unarmed s d;
}
Known-IsConsistent replayed s (i, h, u, r, d) = record {
  held_installed = held_of s i h;
  armed_running = unarmed s d;
}
Known-IsConsistent finished s (inl (h, d)) = record {
  held_installed = λ c e. absurd (cc (sym h ∙ e));
  armed_running = unarmed s d;
}
Known-IsConsistent finished s (inr (i, h, u, inl d)) = record {
  held_installed = held_of s i h;
  armed_running = unarmed s d;
}
Known-IsConsistent finished s (inr (i, h, u, inr r)) = record {
  held_installed = held_of s i h;
  armed_running = λ e. (r, u);
}

-- At every moment of every run, a publisher that handlers can see belongs to the connection whose stream
-- and mux are installed, and the dead-letter writer is armed only once the projections are subscribed and
-- their replay has succeeded.
pub Reach-IsConsistent : {s : Eventing} → Reach s → IsConsistent s
Reach-IsConsistent {s} r = Known-IsConsistent s.pc s (Reach-Known r)

Known-keeps :
    (p : Pc) (a : Answer) (s : Eventing) (c : ℕ)
    → Known p s
    → s.held ≡ some c
    → (step_at p a s).held ≡ some c
unfolding step_at connect wait register_projections run
Known-keeps dialing a s c (st, mx, h, r, d) e = absurd (cc (sym h ∙ e))
Known-keeps waiting a s c (st, mx, h, r, d) e = absurd (cc (sym h ∙ e))
Known-keeps installed a s c (i, h, r, d) e = absurd (cc (sym h ∙ e))
Known-keeps announcing a s c (i, h, r, d) e = rw (step_at, register_projections, i.2) e
Known-keeps registered a s c (i, h, u, r, d) e = elim (Bool-cases a.runs) [
  | inl q ↦ rw (step_at, run, i.2, q) e
  | inr q ↦ rw (step_at, run, i.2, q) e
]
Known-keeps replayed a s c k e = e
Known-keeps finished a s c k e = e

-- The moments behind one.
pub data Behind (s : Eventing) : Eventing → Type 0 where
  now : Behind s s
  step : {t : Eventing} → Behind s t → (a : Answer) → Behind s (advance a t)

Behind-Reach : {s t : Eventing} → Reach s → Behind s t → Reach t
Behind-Reach r now = r
Behind-Reach r (step b a) = later (Behind-Reach r b) a

-- A publisher that a handler has seen once is the publisher at every later moment: what was ready when a
-- call began is there when the call publishes, and a message is published where it was built.
pub publisher_or_nil_stays :
    {s t : Eventing} (c : ℕ)
    → Reach s
    → Behind s t
    → publisher_or_nil s ≡ some c
    → publisher_or_nil t ≡ some c
unfolding advance
publisher_or_nil_stays c r now e = e
publisher_or_nil_stays c r (step {t} b a) e =
    Known-keeps t.pc a t c (Reach-Known (Behind-Reach r b)) (publisher_or_nil_stays c r b e)

-- The pause of the attempt: one second, doubled for each attempt behind the first, and capped.
abbrev pub IsPaced : Eventing → Type 0
IsPaced s = (1 ≤ s.attempt) × (s.delay ≡ min (2 ^ (s.attempt - 1) * second) max_delay)

next_delay-min :
    (n : ℕ) → next_delay (min (2 ^ n * second) max_delay) ≡ min (2 ^ suc n * second) max_delay
unfolding next_delay
next_delay-min n = ground arith

step-IsPaced : (p : Pc) (a : Answer) (s : Eventing) → IsPaced s → IsPaced (step_at p a s)
unfolding step_at connect wait register_projections run
step-IsPaced dialing a s k = elim (Bool-cases (a.dials && a.builds)) [
  | inl q ↦ rw (step_at, connect, q) k
  | inr q ↦ rw (step_at, connect, q) k
]
step-IsPaced waiting a s (lo, k) = elim (Bool-cases a.cancelled) [
  | inl q ↦ rw (step_at, wait, q) (lo, k)
  | inr q ↦
      let e : suc (s.attempt - 1) ≡ s.attempt = omega arith in
      rw (step_at, wait, q)
        (
          omega arith,
          ap next_delay k
              ∙ (next_delay-min (s.attempt - 1)
                  ∙ ap (λ n. min (2 ^ n * second) max_delay) {y = suc s.attempt - 1}
                      (e ∙ omega arith)),
        )
]
step-IsPaced installed a s k = k
step-IsPaced announcing a s k =
    elim s.mux
      as (λ m. IsPaced (elim m [
        | none ↦ record s { pc = registered }
        | some conn ↦ record s { subscribed = true; pc = registered }
      ])) [ none ↦ k | some c ↦ k ]
step-IsPaced registered a s k =
    elim s.mux
      as (λ m. IsPaced (elim m [
        | none ↦ record s { pc = replayed }
        | some conn ↦
            if a.runs
            then record s { running = true; pc = replayed }
            else record s { pc = finished }
      ])) [ none ↦ k | some c ↦ elim (Bool-cases a.runs) [ inl q ↦ rw q k | inr q ↦ rw q k ] ]
step-IsPaced replayed a s k = k
step-IsPaced finished a s k = k

-- The pause behind the n-th attempt is 2^(n-1) seconds, and 30 seconds at most, however long the broker
-- stays away.
pub Reach-IsPaced : {s : Eventing} → Reach s → IsPaced s
unfolding advance
Reach-IsPaced start = (omega arith, refl)
Reach-IsPaced (later {s} r a) = step-IsPaced s.pc a s (Reach-IsPaced r)
