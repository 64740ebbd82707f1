-- ===== src/Simulation/Geometry.antt =====
-- Where players may stand: the storm's edge (storm.ts, static-collision.ts) and the landing of a flash (skills.ts).
use sw_itch_remake.Base.{
  ℕ, zero, suc, ◌+◌, ◌≤◌, ◌<◌, ◌≡◌, refl, ◌⊎◌, inl, inr, Bool, true, false, arith, if_both,
}
use sw_itch_remake.Simulation.Floats.{Floats, of_ℕ}
use sw_itch_remake.Simulation.Floats
use sw_itch_remake.Simulation.World.{WorldMap, StormRect}
use sw_itch_remake.Simulation.Terrain.{Displacement, confine_to_storm, resolve_static}
use sw_itch_remake.Simulation.Skills.{
  Search, found, blocked, out_of_fuel, search_fuel, first_free, find_flash_landing, step_length,
  ahead, behind, or_else,
}

-- What is used of `<=` on doubles, none of them NaN.
pub record IsOrder (f : Floats) : Type 0 where
  pub leb_refl : (a : f.Num) → f.leb a a ≡ true
  pub leb_trans : (a b c : f.Num) → f.leb a b ≡ true → f.leb b c ≡ true → f.leb a c ≡ true
  pub leb_total : (a b : f.Num) → f.leb a b ≡ false → f.leb b a ≡ true

-- What is used of sums, for small whole numbers: a step of at least one passes the next, and whole numbers compare
-- as they should through a number between them.
pub record Counts (f : Floats) : Type 0 where
  pub next_le :
      (n : ℕ) (t s : f.Num)
      → n ≤ 2000
      → f.leb (of_ℕ f 1) s ≡ true
      → f.leb (of_ℕ f n) t ≡ true
      → f.leb (of_ℕ f (n + 1)) (f.add t s) ≡ true
  pub between :
      (n m : ℕ) (t : f.Num)
      → n ≤ 2000
      → m ≤ 2000
      → f.leb (of_ℕ f n) t ≡ true
      → f.leb t (of_ℕ f m) ≡ true
      → n ≤ m

module _ (f : Floats) (o : IsOrder f) where
  open f use {Num, leb, add, sub}

  abbrev Within : Num → Num → Num → Type 0
  Within low high x = (leb low x ≡ true) × (leb x high ≡ true)

  clamp-Within :
      (low high x : Num)
      → leb low high ≡ true
      → Within low high (Floats.min f (Floats.max f x low) high)
  clamp-Within low high x h = ground (
    arith,
    o.leb_refl low,
    o.leb_refl high,
    o.leb_total x low,
    o.leb_total low high,
    o.leb_total x high,
    o.leb_total low x,
  )

  abbrev pub Inside : Num → StormRect Num → Displacement f → Type 0
  Inside radius rect p =
      (leb (add rect.x radius) p.x ≡ true)
      × (leb p.x (sub (add rect.x rect.width) radius) ≡ true)
      × (leb (add rect.y radius) p.y ≡ true)
      × (leb p.y (sub (add rect.y rect.height) radius) ≡ true)

  -- There is room for a circle of the radius in the rectangle.
  abbrev pub HasRoom : Num → StormRect Num → Type 0
  HasRoom radius rect =
      (leb (add rect.x radius) (sub (add rect.x rect.width) radius) ≡ true)
      × (leb (add rect.y radius) (sub (add rect.y rect.height) radius) ≡ true)

  confine_to_storm-Inside :
      (x y radius : Num) (rect : StormRect Num)
      → HasRoom radius rect
      → Inside radius rect (confine_to_storm f x y radius rect)
  unfolding confine_to_storm
  confine_to_storm-Inside x y radius rect h =
      let cx = clamp-Within (add rect.x radius) (sub (add rect.x rect.width) radius) x h.0 in
      let cy = clamp-Within (add rect.y radius) (sub (add rect.y rect.height) radius) y h.1 in
      rw (h.0, h.1) (cx.0, cx.1, cy.0, cy.1)

  -- For an ordered kind of numbers, and a storm with room for the player, the player stands inside the storm
  -- after the walls and the storm have pushed.
  pub resolve_static-Inside :
      (map : WorldMap Num) (radius x y : Num) (rect : StormRect Num)
      → HasRoom radius rect
      → Inside radius rect (resolve_static f map radius x y rect)
  unfolding resolve_static
  resolve_static-Inside map radius x y rect h = confine_to_storm-Inside _ _ radius rect h

  module _ (c : Counts f) where
    -- The search ends on a free point, or is blocked.
    abbrev Ends : (Displacement f → Bool) → Search (Displacement f) → Type 0
    Ends free (found p) = free p ≡ true
    Ends free blocked = Unit
    Ends free out_of_fuel = ⊥

    first_free-Ends :
        (free : Displacement f → Bool) (at : Num → Displacement f) (step_len limit : Num)
        (m n k : ℕ) (t : Num)
        → leb (of_ℕ f 1) step_len ≡ true
        → leb limit (of_ℕ f m) ≡ true
        → leb (of_ℕ f k) t ≡ true
        → k ≤ m + 1
        → m + 1 < k + n
        → k + n ≤ 2000
        → Ends free (first_free f free at step_len limit n t)
    unfolding first_free
    first_free-Ends free at step_len limit m zero k t a b d low e g = absurd (omega (arith, low, e))
    first_free-Ends free at step_len limit m (suc n) k t a b d low e g =
        if_both (Ends free) (leb t limit) _ blocked
          (λ near.
            if_both (Ends free) (free (at t)) (found (at t))
              (first_free f free at step_len limit n (add t step_len)) (λ open'. open')
              (λ shut.
                let le : k ≤ m =
                  c.between k m t (omega arith) (omega arith) d
                    (o.leb_trans t limit (of_ℕ f m) near b) in
                first_free-Ends free at step_len limit m n (k + 1) (add t step_len) a b
                  (c.next_le k t step_len (omega arith) a d) (omega arith) (omega arith)
                  (omega arith)))
          (λ far. tt)

    step_length-one : (radius : Num) → leb (of_ℕ f 1) (step_length f radius) ≡ true
    step_length-one radius =
        ground (arith, o.leb_refl (of_ℕ f 1), o.leb_total (of_ℕ f 1) (f.div radius (of_ℕ f 2)))

    search-Ends :
        (free : Displacement f → Bool) (at : Num → Displacement f) (radius limit : Num)
        → leb limit (of_ℕ f 998) ≡ true
        → Ends free
            (first_free f free at (step_length f radius) limit search_fuel (step_length f radius))
    search-Ends free at radius limit b =
        first_free-Ends free at (step_length f radius) limit 998 search_fuel 1
          (step_length f radius) (step_length-one radius) b (step_length-one radius) (omega arith)
          (omega arith) (omega arith)

    -- Where a search has ended, on a free point or the start.
    abbrev pub Lands : Displacement f → (Displacement f → Bool) → Search (Displacement f) → Type 0
    Lands from free (found p) = (free p ≡ true) ⊎ (p ≡ from)
    Lands from free blocked = ⊥
    Lands from free out_of_fuel = ⊥

    or_else-Ends :
        (free : Displacement f → Bool) (q r : Search (Displacement f))
        → Ends free q
        → Ends free r
        → Ends free (or_else f q r)
    or_else-Ends free (found p) r h k = h
    or_else-Ends free blocked r h k = k
    or_else-Ends free out_of_fuel r h k = h

    or_else-Lands :
        (from : Displacement f) (free : Displacement f → Bool) (q : Search (Displacement f))
        → Ends free q
        → Lands from free (or_else f q (found from))
    or_else-Lands from free (found p) h = inl h
    or_else-Lands from free blocked h = inr refl
    or_else-Lands from free out_of_fuel h = h

    -- For an ordered kind of numbers, and distances of at most 998 pixels, the search for a landing ends, on a free
    -- point or where the flash began.
    pub find_flash_landing-Lands :
        (from : Displacement f) (dir_x dir_y distance max_overshoot radius : Num)
        (free : Displacement f → Bool)
        → leb distance (of_ℕ f 998) ≡ true
        → leb max_overshoot (of_ℕ f 998) ≡ true
        → Lands from free (find_flash_landing f from dir_x dir_y distance max_overshoot radius free)
    unfolding find_flash_landing
    find_flash_landing-Lands from dir_x dir_y distance max_overshoot radius free h k =
        let target = ahead f from dir_x dir_y distance in
        if_both (Lands from free) (free target) (found target) _ (λ open'. inl open')
          (λ shut. or_else-Lands from free _ (
            or_else-Ends free _ _
              (search-Ends free (ahead f target dir_x dir_y) radius max_overshoot k)
              (search-Ends free (behind f target dir_x dir_y) radius distance h)))
