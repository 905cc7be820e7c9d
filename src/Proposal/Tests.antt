-- ===== src/Proposal/Tests.antt =====
-- Proposals of the source's tests.
use darm_guard.Prelude.{◌≡◌, refl, none, some, [], ◌∷◌, distinct, string_eq, if◌then◌else◌}
use darm_guard.Json.{Fields, obj, str, arr, nil, cons, end, field}
use darm_guard.Proposal.{Args, arg_keys, parse_proposal}
use darm_guard.Proposal.Parse.{render, parse_proposal-render}

abbrev write_args : Args
write_args = ("path", "/workspace/a") ∷ ("content", "hi") ∷ []

abbrev write_fields : Fields
write_fields =
    field "args"
      (arr (
        cons (arr (cons (str "path") (cons (str "/workspace/a") nil)))
          (cons (arr (cons (str "content") (cons (str "hi") nil))) nil)))
      (field "tool" (str "write_file") end)

parse_proposal-render_example :
    parse_proposal (render "write_file" write_args)
    ≡ (if distinct (arg_keys write_args) then some ("write_file", write_args) else none)
parse_proposal-render_example = parse_proposal-render "write_file" write_args

extra_field : parse_proposal (obj (field "prov" (str "authoritative") write_fields)) ≡ none
unfolding parse_proposal
extra_field = refl

duplicate_argument :
    parse_proposal (render "read_file" (("path", "/a") ∷ ("path", "/b") ∷ [])) ≡ none
unfolding parse_proposal render
duplicate_argument = refl
