-- ===== src/Callbacks/Tests.antt =====
-- An output bound to a replay of a cloud of a client, in a graph with a cycle.
use tirtc_client_python.Prelude.{ℕ, ◌≡◌, refl, true, false, none, some, ◌==◌, if◌then◌else◌, arith}
use tirtc_client_python.Callbacks.{Objects, links, callback_descends_from}
use tirtc_client_python.Callbacks.Measure.{all_below}
use tirtc_client_python.Callbacks.Descent.{Answers, callback_descends_from-Answers}
use tirtc_client_python.Callbacks.Owners.{inside}

-- 0 is a client, 1 its cloud, 2 a replay of the cloud, 3 an output of the replay; 4 is its own parent.
abbrev objects : Objects
objects = record {
  client = λ v. if v == 1 then some 0 else none;
  parent = λ v. if v == 2 then some 1 else if v == 4 then some 4 else none;
  replay = λ v. none;
  bound = λ v. if v == 3 then some 2 else none;
  is_client = λ v. v == 0;
}

links_inside : (v : ℕ) → all_below 5 (links objects v) ≡ true
unfolding links
links_inside v = ground arith

parents_inside :
    (v : ℕ) → inside 5 (if v == 2 then some 1 else if v == 4 then some 4 else none) ≡ true
parents_inside v = ground arith

found : callback_descends_from objects 0 5 (some 3) ≡ some true
unfolding callback_descends_from
found = refl

not_found : callback_descends_from objects 0 5 (some 4) ≡ some false
unfolding callback_descends_from
not_found = refl

callback_descends_from-Answers_example :
    Answers objects 3 0 (callback_descends_from objects 0 5 (some 3))
callback_descends_from-Answers_example =
    callback_descends_from-Answers objects 3 0 5 links_inside (omega arith)
