-- ===== src/Visibility/Window.antt =====
-- shared/src/visibility/core.ts: the tiles that a player sees through.
use sw_itch_remake.Base.{
  zero, suc, any, ◌+◌, ◌≡◌, refl, sym, ap, subst, ◌∙◌, Bool, true, false, ◌&&◌, ◌||◌, List, [], ◌∷◌,
  ◌++◌, ◌==◌, ==_iff, ltb, arith, inl, inr, All, All-append, if_both, Bool-cases,
}
use sw_itch_remake.Base.Int.{ℤ, pos, negsuc, distance, difference, ◌+ℤ◌, ints}
use sw_itch_remake.Simulation.Floats.{Floats}
use sw_itch_remake.Visibility.Core.{
  VisibilityActor, VisibilityWorld, TileAlpha, nearby_concealment_tiles, shown_rows, shown_in_row,
  tile_of, is_shown, in_reveal_window, offsets,
}

module _ (f : Floats) where
  distance-add : (v d : ℤ) → distance v (v +ℤ d) ≡ distance d (pos 0)
  distance-add (pos a) (pos b) = ground arith
  distance-add (pos a) (negsuc b) = ground arith
  distance-add (negsuc a) (pos b) = ground arith
  distance-add (negsuc a) (negsuc b) = ground arith

  -- A tile that hides players, in the window around the viewer.
  abbrev pub InWindow : VisibilityWorld f → ℤ → ℤ → TileAlpha f → Type 0
  InWindow w vx vy t =
      (is_shown f w t.x t.y ≡ true) × (in_reveal_window (distance vx t.x) (distance vy t.y) ≡ true)

  abbrev Near : List ℤ → Type 0
  Near ds = All (λ d. ltb (distance d (pos 0)) 3 ≡ true) ds

  shown_in_row-InWindow :
      (w : VisibilityWorld f) (vx vy dy : ℤ) (dxs : List ℤ)
      → ltb (distance dy (pos 0)) 3 ≡ true
      → Near dxs
      → All (InWindow w vx vy) (shown_in_row f w vx vy dy dxs)
  unfolding shown_in_row
  shown_in_row-InWindow w vx vy dy [] low near = tt
  shown_in_row-InWindow w vx vy dy (dx ∷ dxs) low near =
      let rest = shown_in_row-InWindow w vx vy dy dxs low near.1 in
      if_both (All (InWindow w vx vy))
        (ltb (distance dx (pos 0) + distance dy (pos 0)) 4 && is_shown f w (vx +ℤ dx) (vy +ℤ dy)) _
        _ (λ e. (rw (distance-add vx dx, distance-add vy dy) (ground (arith, near.0)), rest))
        (λ e. rest)

  shown_rows-InWindow :
      (w : VisibilityWorld f) (vx vy : ℤ) (dys : List ℤ)
      → Near dys
      → All (InWindow w vx vy) (shown_rows f w vx vy dys)
  unfolding shown_rows ints
  shown_rows-InWindow w vx vy [] near = tt
  shown_rows-InWindow w vx vy (dy ∷ dys) near =
      All-append (InWindow w vx vy) (shown_in_row f w vx vy dy (offsets f)) _
        (shown_in_row-InWindow w vx vy dy (offsets f) near.0
          (refl, (refl, (refl, (refl, (refl, tt))))))
        (shown_rows-InWindow w vx vy dys near.1)

  -- The difference between two places.
  offset : ℤ → ℤ → ℤ
  offset (pos a) (pos b) = difference b a
  offset (pos a) (negsuc b) = negsuc (a + b)
  offset (negsuc a) (pos b) = pos (suc (a + b))
  offset (negsuc a) (negsuc b) = difference a b

  add_offset : (v t : ℤ) → v +ℤ offset v t ≡ t
  unfolding offset
  add_offset (pos a) (pos b) = ground arith
  add_offset (pos a) (negsuc b) = ground arith
  add_offset (negsuc a) (pos b) = ground arith
  add_offset (negsuc a) (negsuc b) = ground arith

  same_ℤ : (a b : ℤ) → distance a b ≡ 0 → a ≡ b
  same_ℤ (pos a) (pos b) h = ap pos (omega (arith, h))
  same_ℤ (pos a) (negsuc b) h = absurd (omega (arith, h))
  same_ℤ (negsuc a) (pos b) h = absurd (omega (arith, h))
  same_ℤ (negsuc a) (negsuc b) h = ap negsuc (omega (arith, h))

  abbrev listed : ℤ → List ℤ → Bool
  listed d ds = any (λ e. distance e d == 0) ds

  offsets-listed : (d : ℤ) → ltb (distance d (pos 0)) 3 ≡ true → listed d (offsets f) ≡ true
  unfolding ints
  offsets-listed (pos zero) h = refl
  offsets-listed (pos (suc zero)) h = refl
  offsets-listed (pos (suc (suc zero))) h = refl
  offsets-listed (pos (suc (suc (suc n)))) h = absurd (ground arith)
  offsets-listed (negsuc zero) h = refl
  offsets-listed (negsuc (suc zero)) h = refl
  offsets-listed (negsuc (suc (suc n))) h = absurd (ground arith)

  -- Whether the list has a tile at the place.
  abbrev pub is_listed : ℤ → ℤ → List (TileAlpha f) → Bool
  is_listed tx ty ts = any (λ t. distance t.x tx == 0 && distance t.y ty == 0) ts

  is_listed-append :
      (tx ty : ℤ) (ts us : List (TileAlpha f))
      → is_listed tx ty (ts ++ us) ≡ (is_listed tx ty ts || is_listed tx ty us)
  is_listed-append tx ty [] us = refl
  is_listed-append tx ty (t ∷ ts) us = ground (arith, is_listed-append tx ty ts us)

  distance_self : (a : ℤ) → distance a a ≡ 0
  distance_self (pos a) = omega arith
  distance_self (negsuc a) = omega arith

  shown_in_row-lists :
      (w : VisibilityWorld f) (vx vy dx dy : ℤ) (dxs : List ℤ)
      → listed dx dxs ≡ true
      → ltb (distance dx (pos 0) + distance dy (pos 0)) 4 ≡ true
      → is_shown f w (vx +ℤ dx) (vy +ℤ dy) ≡ true
      → is_listed (vx +ℤ dx) (vy +ℤ dy) (shown_in_row f w vx vy dy dxs) ≡ true
  unfolding shown_in_row
  shown_in_row-lists w vx vy dx dy [] h near shown = cc
  shown_in_row-lists w vx vy dx dy (e ∷ dxs) h near shown = elim (Bool-cases (distance e dx == 0)) [
    | inl same ↦
        subst (λ d. is_listed (vx +ℤ dx) (vy +ℤ dy) (shown_in_row f w vx vy dy (d ∷ dxs)) ≡ true)
          (sym (same_ℤ e dx ((==_iff _ _).0 same)))
          (rw (near, shown, distance_self (vx +ℤ dx), distance_self (vy +ℤ dy)) refl)
    | inr other ↦
        let rest = shown_in_row-lists w vx vy dx dy dxs (ground arith) near shown in
        ground (arith, rest)
  ]

  shown_rows-lists :
      (w : VisibilityWorld f) (vx vy dx dy : ℤ) (dys : List ℤ)
      → listed dx (offsets f) ≡ true
      → listed dy dys ≡ true
      → ltb (distance dx (pos 0) + distance dy (pos 0)) 4 ≡ true
      → is_shown f w (vx +ℤ dx) (vy +ℤ dy) ≡ true
      → is_listed (vx +ℤ dx) (vy +ℤ dy) (shown_rows f w vx vy dys) ≡ true
  unfolding shown_rows
  shown_rows-lists w vx vy dx dy [] hx hy near shown = cc
  shown_rows-lists w vx vy dx dy (e ∷ dys) hx hy near shown =
      rw
        (is_listed-append (vx +ℤ dx) (vy +ℤ dy) (shown_in_row f w vx vy e (offsets f))
          (shown_rows f w vx vy dys))
        (elim (Bool-cases (distance e dy == 0)) [
          | inl same ↦
              rw
                (
                  same_ℤ e dy ((==_iff _ _).0 same),
                  shown_in_row-lists w vx vy dx dy (offsets f) hx near shown,
                )
                refl
          | inr other ↦
              let rest = shown_rows-lists w vx vy dx dy dys hx (ground arith) near shown in
              rw rest (ground arith)
        ])

  -- A tile that hides players, within the reveal window of the viewer's tile.
  abbrev pub is_seen_through : VisibilityWorld f → ℤ → ℤ → ℤ → ℤ → Bool
  is_seen_through w vx vy tx ty =
      is_shown f w tx ty && in_reveal_window (distance vx tx) (distance vy ty)

  listed-InWindow :
      (w : VisibilityWorld f) (vx vy tx ty : ℤ) (ts : List (TileAlpha f))
      → All (InWindow w vx vy) ts
      → is_listed tx ty ts ≡ true
      → is_seen_through w vx vy tx ty ≡ true
  listed-InWindow w vx vy tx ty [] h e = cc
  listed-InWindow w vx vy tx ty (t ∷ ts) h e =
      elim (Bool-cases (distance t.x tx == 0 && distance t.y ty == 0)) [
        | inl here ↦
            let at_x = same_ℤ t.x tx (ground arith) in
            let at_y = same_ℤ t.y ty (ground arith) in
            subst (λ x. is_seen_through w vx vy x ty ≡ true) at_x
              (subst (λ y. is_seen_through w vx vy t.x y ≡ true) at_y (rw (h.0.0, h.0.1) refl))
        | inr other ↦ listed-InWindow w vx vy tx ty ts h.1 (ground arith)
      ]

  Bool-iff : (a b : Bool) → (a ≡ true → b ≡ true) → (b ≡ true → a ≡ true) → a ≡ b
  Bool-iff true b h k = sym (h refl)
  Bool-iff false true h k = k refl
  Bool-iff false false h k = refl

  -- The tiles that a player sees through are exactly the tiles of the map that hide players within the window in which
  -- the hidden are seen, around the player's own tile.
  pub nearby_concealment_tiles-exact :
      (w : VisibilityWorld f) (viewer : VisibilityActor f) (tx ty : ℤ)
      → is_listed tx ty (nearby_concealment_tiles f w viewer)
        ≡ is_seen_through w (tile_of f w viewer.x) (tile_of f w viewer.y) tx ty
  unfolding nearby_concealment_tiles ints
  nearby_concealment_tiles-exact w viewer tx ty =
      let vx = tile_of f w viewer.x in
      let vy = tile_of f w viewer.y in
      Bool-iff (is_listed tx ty (nearby_concealment_tiles f w viewer))
        (is_seen_through w vx vy tx ty)
        (listed-InWindow w vx vy tx ty _
          (shown_rows-InWindow w vx vy (offsets f) (refl, (refl, (refl, (refl, (refl, tt)))))))
        (lists vx vy)
    where
      near_offset : (v t : ℤ) → distance (offset v t) (pos 0) ≡ distance v t
      near_offset v t = sym (distance-add v (offset v t)) ∙ ap (distance v) (add_offset v t)

      lists :
          (vx vy : ℤ)
          → is_seen_through w vx vy tx ty ≡ true
          → is_listed tx ty (shown_rows f w vx vy (offsets f)) ≡ true
      lists vx vy h =
          let there_x = add_offset vx tx in
          let there_y = add_offset vy ty in
          let near_x = near_offset vx tx in
          let near_y = near_offset vy ty in
          subst (λ x. is_listed x ty (shown_rows f w vx vy (offsets f)) ≡ true) there_x
            (subst (λ y. is_listed (vx +ℤ offset vx tx) y (shown_rows f w vx vy (offsets f)) ≡ true)
              there_y
              (shown_rows-lists w vx vy (offset vx tx) (offset vy ty) (offsets f)
                (offsets-listed (offset vx tx) (rw near_x (ground arith)))
                (offsets-listed (offset vy ty) (rw near_y (ground arith)))
                (rw (near_x, near_y) (ground arith))
                (subst (λ x. is_shown f w x (vy +ℤ offset vy ty) ≡ true) (sym there_x)
                  (subst (λ y. is_shown f w tx y ≡ true) (sym there_y) (ground arith)))))
