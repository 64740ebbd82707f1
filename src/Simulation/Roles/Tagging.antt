-- ===== src/Simulation/Roles/Tagging.antt =====
-- Tagging (`resolveTagging` of step.ts): who falls, and that the tagger does not.
use sw_itch_remake.Base.{
  ℕ, ◌+◌, ◌≤◌, ◌≡◌, ◌≢◌, refl, sym, subst, ◌∙◌, Bool, true, false, Option, none, some, List, [],
  ◌∷◌, ◌++◌, arith, ==_iff, if_both, find, find-passes, count, count-append, count-update_first,
  update_first, All, Bool-cases, inl, inr,
}
use sw_itch_remake.Simulation.Floats.{Floats}
use sw_itch_remake.Simulation.World.{
  Effect, PlayerState, World, WorldEvent, tagged, eliminated, blinked, skill_area, has_id,
  is_living_tagger, find_player, find_tagger,
}
use sw_itch_remake.Simulation.Effects.{apply_effect}
use sw_itch_remake.Simulation.Motion.{CollisionPair}
use sw_itch_remake.Simulation.Step.{
  caught, count_tag, extend_frenzy, tag_victim, other_of, extend_frenzy_on_tag, eliminate,
  tag_other, tag_as, tag_pair, tag_pairs, resolve_tagging,
}
use sw_itch_remake.Simulation.Roles.{
  Role, role_of, roles_of, role_has, role_alive, role_leads, fell, roles_of-update_first,
  roles_of-update_first_same, find-roles_of,
}
use sw_itch_remake.Simulation.Roles.Contacts.{IsProper}

abbrev pub is_elimination : {N : Type 0} → WorldEvent N → Bool
is_elimination (tagged id by) = false
is_elimination (eliminated id by) = true
is_elimination (blinked id x y) = false
is_elimination (skill_area s id x y target) = false

-- How many have fallen, by the events.
abbrev pub eliminations : {N : Type 0} → List (WorldEvent N) → ℕ
eliminations es = count is_elimination es

-- Two leaders with different ids are two.
two_leaders :
    (v : ℕ) (a b : Role) (rs : List Role)
    → find role_leads rs ≡ some a
    → find (role_has v) rs ≡ some b
    → role_leads b ≡ true
    → a.id ≢ v
    → 2 ≤ count role_leads rs
two_leaders v a b [] h k l n = cc
two_leaders v a b (r ∷ rs) h k l n = ground (arith, two_leaders v a b rs, one_leader b rs l)
  where
    one_leader :
        (b : Role) (rs : List Role)
        → role_leads b ≡ true
        → find (role_has v) rs ≡ some b
        → 1 ≤ count role_leads rs
    one_leader b [] l k = cc
    one_leader b (r ∷ rs) l k = ground (arith, one_leader b rs l)

-- The leader with the id, and no other.
abbrev pub Leads : ℕ → List Role → Type 0
Leads id rs = ((a : Role) × (find role_leads rs ≡ some a) × (a.id ≡ id)) × (count role_leads rs ≤ 1)

find-fell :
    (v : ℕ) (a b : Role) (rs : List Role)
    → find role_leads rs ≡ some a
    → find (role_has v) rs ≡ some b
    → role_leads b ≡ false
    → find role_leads (update_first (role_has v) fell rs) ≡ some a
unfolding update_first
find-fell v a b [] h k l = cc
find-fell v a b (r ∷ rs) h k l = ground (arith, find-fell v a b rs)

-- From some roles and events to others: the tagger's part stays with one, the ids stay, and the number of those alive
-- falls by the number of eliminations.
abbrev pub Balanced :
    {N : Type 0} → List Role → List (WorldEvent N) → List Role → List (WorldEvent N) → Type 0
Balanced rs es rs' es' =
    ((id : ℕ) → count (role_has id) rs' ≡ count (role_has id) rs)
    × (count role_alive rs' + eliminations es' ≡ count role_alive rs + eliminations es)

module _ (id v : ℕ) (b : Role) (rs : List Role) (k : find (role_has v) rs ≡ some b) where
  fall-ids :
      (i : ℕ) → count (role_has i) (update_first (role_has v) fell rs) ≡ count (role_has i) rs
  fall-ids i = omega (arith, count-update_first (role_has i) (role_has v) fell b rs k)

  fall-alive :
      b.alive ≡ true
      → count role_alive (update_first (role_has v) fell rs) + 1 ≡ count role_alive rs
  fall-alive h = ground (arith, count-update_first role_alive (role_has v) fell b rs k)

  fall-Leads : Leads id rs → id ≢ v → Leads id (update_first (role_has v) fell rs)
  fall-Leads ((a, h, same), few) n =
      let follows : role_leads b ≡ false = elim (Bool-cases (role_leads b)) [
        | inl l ↦ absurd (omega (arith, few, two_leaders v a b rs h k l (λ e. n (sym same ∙ e))))
        | inr l ↦ l
      ] in
      (
        (a, find-fell v a b rs h k follows, same),
        ground (arith, few, count-update_first role_leads (role_has v) fell b rs k),
      )

  fall-leaders :
      Leads id rs
      → id ≢ v
      → count role_leads (update_first (role_has v) fell rs) ≡ count role_leads rs
  fall-leaders ((a, h, same), few) n =
      let l = fall-Leads ((a, h, same), few) n in
      ground (
        arith,
        few,
        count-update_first role_leads (role_has v) fell b rs k,
        two_leaders v a b rs h k,
      )

module _ (f : Floats) where
  open f use {Num}

  extend_frenzy-role :
      (o : Option (Effect Num)) (w : World Num) (p : PlayerState Num)
      → role_of (extend_frenzy f o w p) ≡ role_of p
  unfolding apply_effect
  extend_frenzy-role none w p = refl
  extend_frenzy-role (some e) w p = refl

  eliminate-roles :
      (v : ℕ) (w : World Num)
      → roles_of (eliminate f v w).players ≡ update_first (role_has v) fell (roles_of w.players)
  unfolding extend_frenzy_on_tag
  eliminate-roles v w =
      roles_of-update_first_same is_living_tagger _ _
        (λ p. extend_frenzy-role p.effects.frenzy w (count_tag p))
      ∙ roles_of-update_first (has_id v) (caught w.tick) (role_has v) fell w.players (λ p. refl)
          (λ p. refl)

  other_of-other :
      (id o : ℕ) (pair : CollisionPair) → IsProper pair → other_of id pair ≡ some o → id ≢ o
  other_of-other id o pair n e = ground (arith, n)

  -- Before and after, with the events.
  abbrev Session : Type 0
  Session = World Num × List (WorldEvent Num)

  abbrev Hunted : ℕ → Session → Session → Type 0
  Hunted id s t =
      Leads id (roles_of t.0.players)
      × Balanced (roles_of s.0.players) s.1 (roles_of t.0.players) t.1
      × (count role_leads (roles_of t.0.players) ≡ count role_leads (roles_of s.0.players))

  Hunted-refl : (id : ℕ) (s : Session) → Leads id (roles_of s.0.players) → Hunted id s s
  Hunted-refl id s l = (l, (λ i. refl, refl), refl)

  eliminate-Hunted :
      (id : ℕ) (p : PlayerState Num) (s : Session)
      → find (role_has p.player_id) (roles_of s.0.players) ≡ some (role_of p)
      → p.alive ≡ true
      → id ≢ p.player_id
      → Leads id (roles_of s.0.players)
      → Hunted id s (eliminate f p.player_id s.0, s.1 ++ (eliminated p.player_id id ∷ []))
  eliminate-Hunted id p s k lives n l =
      let rs = roles_of s.0.players in
      let b = role_of p in
      subst
        (λ rs'.
          Leads id rs'
          × Balanced rs s.1 rs' (s.1 ++ (eliminated p.player_id id ∷ []))
          × (count role_leads rs' ≡ count role_leads rs))
        (sym (eliminate-roles p.player_id s.0))
        (
          fall-Leads id p.player_id b rs k l n,
          (
            fall-ids id p.player_id b rs k,
            omega (
              arith,
              fall-alive id p.player_id b rs k lives,
              count-append is_elimination s.1 (eliminated p.player_id id ∷ []),
            ),
          ),
          fall-leaders id p.player_id b rs k l n,
        )

  tag_victim-Hunted :
      (id v : ℕ) (o : Option (PlayerState Num)) (s : Session)
      → find_player v s.0 ≡ o
      → id ≢ v
      → Leads id (roles_of s.0.players)
      → Hunted id s (tag_victim f id o s)
  unfolding tag_victim
  tag_victim-Hunted id v none s e n l = Hunted-refl id s l
  tag_victim-Hunted id v (some p) s e n l =
      let same = (==_iff p.player_id v).0 (find-passes (has_id v) p s.0.players e) in
      if_both (Hunted id s) p.alive _ s
        (λ lives.
          eliminate-Hunted id p s
            (subst (λ i. find (role_has i) (roles_of s.0.players) ≡ some (role_of p)) (sym same)
              (find-roles_of (has_id v) (role_has v) s.0.players (λ q. refl) p e))
            lives (λ q. n (q ∙ same)) l)
        (λ dead. Hunted-refl id s l)

  tag_other-Hunted :
      (id : ℕ) (o : Option ℕ) (s : Session)
      → ((v : ℕ) → o ≡ some v → id ≢ v)
      → Leads id (roles_of s.0.players)
      → Hunted id s (tag_other f id o s)
  tag_other-Hunted id none s n l = Hunted-refl id s l
  tag_other-Hunted id (some v) s n l =
      tag_victim-Hunted id v (find_player v s.0) s refl (n v refl) l

  tag_pairs-Hunted :
      (id : ℕ) (pairs : List CollisionPair) (s : Session)
      → All IsProper pairs
      → Leads id (roles_of s.0.players)
      → Hunted id s (tag_pairs f id pairs s)
  unfolding tag_pairs tag_pair
  tag_pairs-Hunted id [] s h l = Hunted-refl id s l
  tag_pairs-Hunted id (pair ∷ pairs) s h l =
      let one =
        tag_other-Hunted id (other_of id pair) s (λ v e. other_of-other id v pair h.0 e) l in
      let rest = tag_pairs-Hunted id pairs (tag_pair f id pair s) h.1 one.0 in
      (rest.0, (λ i. rest.1.0 i ∙ one.1.0 i, rest.1.1 ∙ one.1.1), rest.2 ∙ one.2)

  abbrev pub Tagged : Session → Session → Type 0
  Tagged s t =
      Balanced (roles_of s.0.players) s.1 (roles_of t.0.players) t.1
      × (count role_leads (roles_of t.0.players) ≡ count role_leads (roles_of s.0.players))

  tag_as-Tagged :
      (o : Option (PlayerState Num)) (pairs : List CollisionPair) (s : Session)
      → find_tagger s.0 ≡ o
      → All IsProper pairs
      → count role_leads (roles_of s.0.players) ≤ 1
      → Tagged s (tag_as f o pairs s)
  tag_as-Tagged none pairs s e h few = ((λ i. refl, refl), refl)
  tag_as-Tagged (some tagger) pairs s e h few =
      let lead = find-roles_of is_living_tagger role_leads s.0.players (λ q. refl) tagger e in
      let hunt = tag_pairs-Hunted tagger.player_id pairs s h ((role_of tagger, lead, refl), few) in
      (hunt.1, hunt.2)

  -- Where at most one living player is the tagger and no pair names one player twice, tagging keeps the ids and the
  -- number of living taggers, and there are as many new elimination events as players who fall.
  pub resolve_tagging-Tagged :
      (pairs : List CollisionPair) (s : Session)
      → All IsProper pairs
      → count role_leads (roles_of s.0.players) ≤ 1
      → Tagged s (resolve_tagging f pairs s)
  unfolding resolve_tagging
  resolve_tagging-Tagged pairs s h few = tag_as-Tagged (find_tagger s.0) pairs s refl h few
