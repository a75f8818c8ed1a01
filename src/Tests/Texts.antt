-- ===== src/Tests/Texts.antt =====
-- Snake case of the name of a policy.
use topovgm.Prelude.{◌≡◌, refl}
use topovgm.Utils.Snake.{to_snake_case}

snake_case : to_snake_case "ClingByTags" ≡ "cling_by_tags"
unfolding to_snake_case
snake_case = refl
