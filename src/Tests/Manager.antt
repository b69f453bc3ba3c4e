-- ===== src/Tests/Manager.antt =====
-- The start of the program with libraries that agree to everything.
use argora.Base.{ℕ, suc, ◌≡◌, refl, []}
use argora.Errors.{ok}
use argora.Manager.{
  Runtime, goes_on, main, get_flag_variables, ◌>>=◌, request, must, pure, set_up_hosts,
}
use argora.Manager.Following.{IsStart}
use argora.Manager.Plan.{plan, main-IsStart}

abbrev pub libraries : Runtime
libraries = record {
  State = ℕ;
  string_flag = λ name value. value;
  bool_flag = λ name value. value;
  int_flag = λ name value. value;
  duration_flag = λ name value. value;
  answer = λ q n. (ok tt, suc n);
}

main-IsStart_example : IsStart (plan (get_flag_variables libraries)) (main libraries)
main-IsStart_example = main-IsStart libraries

-- Nothing stops it.
start_test : (main libraries (record { state = 0; requests = [] })).0 ≡ goes_on tt
unfolding main ◌>>=◌ request must pure set_up_hosts get_flag_variables
start_test = refl
