-- ===== src/Tests/Pages.antt =====
-- Paths and pages of cpp-source/http-api.cpp.
use libjaypea.Base.{ℕ, codes, Bool, false, ◌≡◌, refl, arith, none, replicate}
use libjaypea.Util.Replace.{find, behind}
use libjaypea.HttpApi.Paths.{clean, find-clean}
use libjaypea.HttpApi.Pages.{empty_loop, empty_loop-hangs}
use libjaypea.HttpApi.Chunks.{Sends, send_loop_lem}

cleaned_path : clean (codes "/../..//etc...") ≡ codes "/././/etc."
unfolding clean
cleaned_path = refl

find-clean_example : find (codes "..") (clean (codes "/../..//etc...")) ≡ none
find-clean_example = find-clean (codes "/../..//etc...")

empty_loop_hangs_run : empty_loop 50 (codes "a}}}{{{b") ≡ none
unfolding find behind
empty_loop_hangs_run =
    empty_loop-hangs 50 (codes "a}}}{{{b") (codes "a}}}") (codes "b") (codes "a") (codes "{{{b")
      refl refl refl (omega arith)

abbrev succeeds : ℕ → Bool
succeeds offset = false

send_loop_lem_example : Sends 9000 succeeds (replicate 8200 65) 0
send_loop_lem_example =
    send_loop_lem 9000 succeeds (replicate 8200 65) (λ offset. refl) (omega arith)
