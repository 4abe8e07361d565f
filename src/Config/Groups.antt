-- ===== src/Config/Groups.antt =====
-- The text form of `downstream_tls.groups` in `_groups` of gateway/model.py.
use Prim.Native.Char.{code}
use pq_migration_gateway.Prelude.{◌≡◌, refl, String, true, not, [], ◌∷◌, arith, eqb, &&-eq-true}
use pq_migration_gateway.Prelude.Text.{all_codes, split_colon, add_front, lower}
use pq_migration_gateway.Result.{ok}
use pq_migration_gateway.Json.{str, get, dict}
use pq_migration_gateway.Config.Fields.{Mode, nonempty, groups, one_of, mode_of}

-- A text without a colon is one group.
split_colon_one : (t : String) → all_codes (λ c. not (eqb c b':')) t ≡ true → split_colon t ≡ t ∷ []
unfolding split_colon add_front
split_colon_one String.[] h = refl
split_colon_one (String.◌∷◌ c s) h =
    let (first, rest) = &&-eq-true (not (eqb (code c) b':')) _ h in
    rw (split_colon_one s rest) (ground arith)

-- Any filled text without a colon is accepted as the group set of a service in custom mode, whatever
-- its characters: blanks, semicolons and braces are not refused, though `SAFE_TOKEN` has none of
-- them and a list of groups is held to it.
pub groups-unchecked :
    (t : String)
    → nonempty t ≡ true
    → all_codes (λ c. not (eqb c b':')) t ≡ true
    → groups (dict (("mode", str "custom") ∷ ("groups", str t) ∷ [])) ≡ ok (Mode.custom, t ∷ [])
unfolding groups get one_of mode_of lower
groups-unchecked t filled plain = rw (split_colon_one t plain, filled)
