-- ===== src/Supervisor/Laws.antt =====
-- What the rule of policy.ts may decide.
use sw_itch_remake.Base.{
  ◌+◌, ◌<◌, ◌≡◌, refl, sym, subst, ◌⊎◌, inl, inr, String, Bool, false, ◌&&◌, not, List, [], ◌∷◌,
  arith, if_both, ltb, filter, length,
}
use sw_itch_remake.Simulation.Floats.{Floats}
use sw_itch_remake.Supervisor.Policy.{
  ScalingAction, stay, up, down, Heartbeat, ScalingInput, active, capacity, is_cooling, exceeds,
  is_below, is_quieter, quietest, shut_down, balance, decide_scaling,
}

module _ (f : Floats) (comes_before : String → String → Bool) where
  abbrev Among : Heartbeat f → List (Heartbeat f) → Type 0
  Among s [] = ⊥
  Among s (x ∷ xs) = (s ≡ x) ⊎ Among s xs

  -- Nothing has been done within the cooldown, and nothing is starting.
  abbrev IsSettled : ScalingInput f → Type 0
  IsSettled i =
      (is_cooling f i.last_action_at i.now i.policy.cooldown_ms ≡ false) × (i.starting ≡ 0)

  abbrev pub IsSafe : ScalingInput f → ScalingAction → Type 0
  IsSafe i stay = Unit
  IsSafe i up =
      (capacity f i < i.policy.min_servers) ⊎ (IsSettled i × (capacity f i < i.policy.max_servers))
  IsSafe i (down id) =
      IsSettled i
      × (length (active f i) ≡ length i.servers)
      × (i.policy.min_servers < length (active f i))
      × ((s : Heartbeat f) × Among s (active f i) × (s.server_id ≡ id))

  quietest-Among :
      (best : Heartbeat f) (rest : List (Heartbeat f))
      → (quietest f comes_before best rest ≡ best) ⊎ Among (quietest f comes_before best rest) rest
  unfolding quietest
  quietest-Among best [] = inl refl
  quietest-Among best (s ∷ rest) =
      if_both
        (λ b.
          (quietest f comes_before b rest ≡ best)
          ⊎ ((quietest f comes_before b rest ≡ s) ⊎ Among (quietest f comes_before b rest) rest))
        (is_quieter f comes_before s best) s best (λ h. inr (quietest-Among s rest))
        (λ h. elim (quietest-Among best rest) [ inl e ↦ inl e | inr e ↦ inr (inr e) ])

  length-filter-le :
      (p : Heartbeat f → Bool) (xs : List (Heartbeat f)) → length (filter p xs) < length xs + 1
  length-filter-le p [] = omega arith
  length-filter-le p (x ∷ xs) = ground (arith, length-filter-le p xs)

  shut_down-IsSafe :
      (i : ScalingInput f) (xs : List (Heartbeat f))
      → active f i ≡ xs
      → IsSettled i
      → length (active f i) ≡ length i.servers
      → i.policy.min_servers < length (active f i)
      → IsSafe i (shut_down f comes_before xs)
  shut_down-IsSafe i [] e h k l = tt
  shut_down-IsSafe i (s ∷ rest) e h k l = (
    h,
    k,
    l,
    (
      quietest f comes_before s rest,
      subst (Among (quietest f comes_before s rest)) (sym e) (quietest-Among s rest),
      refl,
    ),
  )

  balance-IsSafe : (i : ScalingInput f) → IsSettled i → IsSafe i (balance f comes_before i)
  unfolding balance
  balance-IsSafe i h =
      if_both (IsSafe i)
        (exceeds f (active f i) i.policy.scale_up_load && ltb (capacity f i) i.policy.max_servers) _
        _ (λ e. inr (h, ground arith))
        (λ e.
          if_both (IsSafe i) (ltb (length (active f i)) (length i.servers)) _ _ (λ k. tt)
            (λ k.
              if_both (IsSafe i)
                (is_below f (active f i) i.policy.scale_down_load
                  && ltb i.policy.min_servers (length (active f i)))
                _ _
                (λ l.
                  shut_down-IsSafe i (active f i) refl h
                    (ground (arith, length-filter-le (λ s. not s.draining) i.servers))
                    (ground arith))
                (λ l. tt)))

  -- The rule starts a server only below the minimum, or below the maximum with no cooldown running and nothing
  -- starting; and it shuts one down only with no cooldown running, nothing starting, no server draining and more than
  -- the minimum active, and then an active one.
  pub decide_scaling-IsSafe : (i : ScalingInput f) → IsSafe i (decide_scaling f comes_before i)
  unfolding decide_scaling
  decide_scaling-IsSafe i =
      if_both (IsSafe i) (ltb (capacity f i) i.policy.min_servers) _ _ (λ h. inl (ground arith))
        (λ h.
          if_both (IsSafe i) (is_cooling f i.last_action_at i.now i.policy.cooldown_ms) _ _
            (λ k. tt)
            (λ k.
              if_both (IsSafe i) (ltb 0 i.starting) _ _ (λ l. tt)
                (λ l. balance-IsSafe i (k, ground arith))))
