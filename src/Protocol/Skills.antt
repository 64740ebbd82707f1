-- ===== src/Protocol/Skills.antt =====
-- shared/src/protocol/skills.ts: the skills, their slots, and why a request is refused.
use sw_itch_remake.Base.{
  ℕ, Bool, true, false, ◌||◌, List, [], ◌∷◌, any, ◌==◌, ite, String, String_discrete,
}

pub data SkillId : Type 0 where
  dash flash exhaust switch : SkillId

unfoldable pub SkillId-discrete : Discrete SkillId
SkillId-discrete = hlevel

-- `SkillSlot`.
abbrev pub switch_slot : ℕ
switch_slot = 1

abbrev pub movement_slot : ℕ
movement_slot = 2

-- The text that stands for a skill in a message.
abbrev pub skill_text : SkillId → String
skill_text dash = "dash"
skill_text flash = "flash"
skill_text exhaust = "exhaust"
skill_text switch = "switch"

abbrev pub loadout_skills : List SkillId
loadout_skills = dash ∷ flash ∷ exhaust ∷ []

unfoldable pub is_loadout_skill : String → Bool
is_loadout_skill value =
    any (λ s. ite (String_discrete (skill_text s) value) true false) loadout_skills

unfoldable pub is_skill_slot : ℕ → Bool
is_skill_slot value = value == switch_slot || value == movement_slot

pub data SkillRejection : Type 0 where
  not_alive no_skill on_cooldown role out_of_range no_target no_tagger : SkillRejection
