-- ===== src/Tests/App.antt =====
-- Runs of the path patterns and of the byte queue.
use qjs_lws.Base.{◌≡◌, refl, true, some, List, [], ◌∷◌, ◌++◌, arith}
use qjs_lws.Text.{text, contains}
use qjs_lws.App.Path.{Regex, compile_path, exec}
use qjs_lws.App.Path.Fill.{Segment, fixed, value, path_of, values_of}
use qjs_lws.App.Path.Compile.{pattern_of, keys_of, exec-compile_path}
use qjs_lws.ByteQueue.{Call, feeds, reads, run, empty}
use qjs_lws.ByteQueue.Delivery.{delivered, run-bytes}

abbrev users : Segment
users = fixed (text "users")

abbrev user_id : List Segment
user_id = value (text "id") (text "42") ∷ []

exec-compile_path_example :
    (regex : Regex) × (compile_path (pattern_of (users ∷ user_id)) true
      ≡ some (regex, keys_of (users ∷ user_id)))
    × (exec regex (path_of (users ∷ user_id)) ≡ some (values_of (users ∷ user_id)))
unfolding contains
exec-compile_path_example =
    exec-compile_path users user_id (((omega arith, refl, refl)), (refl, tt))
      (omega arith, refl, tt)

abbrev calls : List Call
calls = reads 3 0 ∷ feeds (1 ∷ 2 ∷ []) ∷ feeds (3 ∷ 4 ∷ []) ∷ []

run-bytes_example : delivered (run calls empty).1 ++ (run calls empty).0.buf ≡ 1 ∷ 2 ∷ 3 ∷ 4 ∷ []
run-bytes_example = run-bytes calls empty
