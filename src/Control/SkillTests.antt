-- ===== src/Control/SkillTests.antt =====
-- The theorems about skills at concrete inputs.
use macrohelp.Base.{false, ◌≤◌, some, [], ◌∷◌, length, All, ◌≡◌, refl}
use macrohelp.Runtime.Text.{bytes}
use macrohelp.Control.Checked.{WhenDone, done}
use macrohelp.Control.Text.{trim_start, trim_end, trim}
use macrohelp.Control.Skills.{
  Request, validate_skills, saved_skills, saved_skill, skill_request, entry_request,
}
use macrohelp.Control.Skills.Requests.{IsSkill, validate_skills-All}

abbrev two_skills : Request
two_skills = (bytes "login", some (bytes "i7s1")) ∷ (bytes "mail", some (bytes "i8z12")) ∷ []

accepted : validate_skills two_skills ≡ done tt
unfolding validate_skills saved_skills saved_skill skill_request trim trim_start trim_end
accepted = refl

lowered :
    skill_request (entry_request (bytes " Login ") (some (bytes "I7S1"))) false
    ≡ done (bytes "Login", some (bytes "i7s1"))
unfolding skill_request trim trim_start trim_end
lowered = refl

validate_skills-All_example :
    WhenDone (λ u. (length two_skills ≤ 256) × All IsSkill two_skills) (validate_skills two_skills)
validate_skills-All_example = validate_skills-All two_skills
