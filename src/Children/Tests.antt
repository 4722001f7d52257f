-- ===== src/Children/Tests.antt =====
-- Two children, the first of which raises and is closed.
use tirtc_client_python.Prelude.{ℕ, ◌≡◌, refl, none, some, List, [], ◌∷◌, ◌==◌, any, if◌then◌else◌}
use tirtc_client_python.Errors.Action.{foreign, ok, err}
use tirtc_client_python.Children.{Children, close_each}
use tirtc_client_python.Children.Trace.{close_each-judged, judged, trace}

-- The world is the list of the children that are closed.
abbrev pair : Children (List ℕ)
pair = record {
  close_child = λ c n. (if c == 1 then err (foreign "one") else ok tt, c ∷ n);
  child_closed = λ c n. any (λ d. d == c) n;
}

keeps_error : close_each pair (1 ∷ 2 ∷ []) none [] ≡ (ok (some (foreign "one")), 2 ∷ 1 ∷ [])
unfolding close_each
keeps_error = refl

close_each-judged_example :
    close_each pair (1 ∷ 2 ∷ []) none []
    ≡ (judged (trace pair (1 ∷ 2 ∷ []) []).0, (trace pair (1 ∷ 2 ∷ []) []).1)
close_each-judged_example = close_each-judged pair (1 ∷ 2 ∷ []) []
