-- ===== src/Examples/Paths.antt =====
-- Short paths through both conversions, and a drive root.
use fs2_turbo.Base.{ℕ, suc, ◌≡◌, refl, List, [], ◌∷◌, ◌++◌, none, ok, err, replicate}
use fs2_turbo.Base.Buffer.{contains_null, null_error, write, from_raw_parts}
use fs2_turbo.Base.Io.{Io}
use fs2_turbo.Unix.Path.{with_c_path}
use fs2_turbo.Unix.Path.Sound.{with_c_path_lem}
use fs2_turbo.Windows.Path.{with_wide_path, wide_loop, push_rest}
use fs2_turbo.Windows.Path.Wide.{with_wide_path_lem}

-- A query that returns what it is handed and counts its calls.
abbrev echo : List ℕ → Io ℕ (List ℕ)
echo path n = (ok path, suc n)

abbrev tmp : List ℕ
tmp = b'/' ∷ b't' ∷ b'm' ∷ b'p' ∷ []

with_c_path_lem_example : with_c_path tmp echo 0 ≡ (ok (tmp ++ 0 ∷ []), 1)
unfolding contains_null
with_c_path_lem_example = with_c_path_lem tmp echo 0

with_wide_path_lem_example : with_wide_path (tmp ++ 0 ∷ tmp) echo 0 ≡ (err null_error, 0)
unfolding contains_null
with_wide_path_lem_example = with_wide_path_lem (tmp ++ 0 ∷ tmp) echo 0

-- An array of three units is outgrown by a path of four.
outgrown : wide_loop 2 tmp (replicate 3 none) 0 ≡ ok (tmp ++ 0 ∷ [])
unfolding wide_loop push_rest replicate write from_raw_parts
outgrown = refl

abbrev root_array : List ℕ
root_array = 0 ∷ 0 ∷ 0 ∷ 0 ∷ 0 ∷ []
