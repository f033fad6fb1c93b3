-- ===== src/Models.antt =====
-- models.py: the constraint of `UserId` on a str.
use fastapi_better_auth.Base.{ℕ, Bool, not, ◌&&◌, ◌||◌, leb, ltb, ◌==◌, any, length}
use fastapi_better_auth.Text.{Str, is_blank}

abbrev pub id_max_length : ℕ
id_max_length = 255

-- _reject_unusable_id: whether the value is returned
unfoldable pub is_accepted_id : Str → Bool
is_accepted_id value = not (is_blank value) && not (any (λ c. ltb c 0x20 || c == 0x7f) value)

-- RESOURCE_ID.validate_python of a str, which _coerce_integer_id leaves alone
unfoldable pub is_user_id : Str → Bool
is_user_id value = leb 1 (length value) && leb (length value) id_max_length && is_accepted_id value
