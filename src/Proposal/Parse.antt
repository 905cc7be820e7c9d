-- ===== src/Proposal/Parse.antt =====
-- `parse_proposal` accepts exactly the messages that a client may send.
use darm_guard.Prelude.{
  true, ◌||◌, String, ◌≡◌, refl, Option, none, some, [], ◌∷◌, all, distinct, arith, ◌==◌, string_eq,
  if◌then◌else◌, Bool-cases, Option-cases, inl, inr,
}
use darm_guard.Json
use darm_guard.Json.{Json, Items, Fields, obj, str, arr, nil, cons, end, field}
use darm_guard.Proposal.{
  Args, arg_keys, parse_arg, parse_args, has_exact_keys, parse_members, reject_duplicates,
  parse_proposal, add_arg,
}

-- The message of `BrokerClient.propose`.
unfoldable pub render_args : Args → Items
render_args [] = nil
render_args ((k, v) ∷ rest) = cons (arr (cons (str k) (cons (str v) nil))) (render_args rest)

unfoldable pub render : String → Args → Json
unfolding render_args
render tool args = obj (field "tool" (str tool) (field "args" (arr (render_args args)) end))

parse_args-render : (args : Args) → parse_args (render_args args) ≡ some args
unfolding parse_args render_args
parse_args-render [] = refl
parse_args-render ((k, v) ∷ rest) = rw (parse_args-render rest)

-- A client's message is read back as it was meant, unless it names an argument twice.
pub parse_proposal-render :
    (tool : String) (args : Args)
    → parse_proposal (render tool args)
      ≡ (if distinct (arg_keys args) then some (tool, args) else none)
unfolding parse_proposal render parse_members has_exact_keys Json.get Json.keys reject_duplicates
parse_proposal-render tool args = rw (parse_args-render args)

parse_arg-some :
    (j : Json) {k v : String}
    → parse_arg j ≡ some (k, v)
    → j ≡ arr (cons (str k) (cons (str v) nil))
unfolding parse_arg
parse_arg-some (arr (cons (str k) (cons (str v) nil))) h = ground arith
parse_arg-some _ h = cc

add_arg-some :
    (a : Option (String × String)) (r : Option Args) {args : Args}
    → add_arg a r ≡ some args
    → (kv : String × String) × (out : Args) × (a ≡ some kv) × (r ≡ some out) × (args ≡ kv ∷ out)
unfolding add_arg
add_arg-some (some kv) (some out) h = (kv, out, refl, refl, ground arith)
add_arg-some (some kv) none h = cc
add_arg-some none r h = cc

parse_args-some : (xs : Items) (args : Args) → parse_args xs ≡ some args → xs ≡ render_args args
unfolding parse_args render_args
parse_args-some nil [] h = refl
parse_args-some nil (kv ∷ args) h = cc
parse_args-some (cons x xs) args h =
    let (kv, out, first, others, e) = add_arg-some (parse_arg x) (parse_args xs) h in
    rw e (cc (parse_arg-some x first, parse_args-some xs out others))

-- What an accepted message says: the two members, with nothing beside them, and every argument once.
pub record Says (fs : Fields) (tool : String) (args : Args) : Type 0 where
  pub no_other : all (λ k. k == "tool" || k == "args") (Json.keys fs) ≡ true
  pub tool_member : Json.get "tool" fs ≡ some (str tool)
  pub args_member : Json.get "args" fs ≡ some (arr (render_args args))
  pub once : distinct (arg_keys args) ≡ true

parse_members-some :
    (t a : Option Json) {tool : String} {args : Args}
    → parse_members t a ≡ some (tool, args)
    → (t ≡ some (str tool))
      × (a ≡ some (arr (render_args args)))
      × (distinct (arg_keys args) ≡ true)
unfolding parse_members reject_duplicates
parse_members-some (some (str name)) (some (arr xs)) {tool} {args} h =
    elim (Option-cases (parse_args xs)) [
      | inl e ↦ ground (arith, e)
      | inr (out, e) ↦ elim (Bool-cases (distinct (arg_keys out))) [
        | inl d ↦ ground (arith, e, d, parse_args-some xs out e)
        | inr d ↦ ground (arith, e, d)
      ]
    ]
parse_members-some _ _ h = cc

-- Nothing but such a message is accepted: no extra field, no argument that is not a pair of
-- strings, no repeated argument.
pub parse_proposal-some :
    (j : Json) {tool : String} {args : Args}
    → parse_proposal j ≡ some (tool, args)
    → (fs : Fields) × (j ≡ obj fs) × Says fs tool args
unfolding parse_proposal has_exact_keys
parse_proposal-some (obj fs) h = elim (Bool-cases (has_exact_keys fs)) [
  | inl e ↦
      let (t, a, once) =
        parse_members-some (Json.get "tool" fs) (Json.get "args" fs) (ground arith) in
      (fs, refl, record { no_other = ground arith; tool_member = t; args_member = a; once = once })
  | inr e ↦ absurd (ground arith)
]
parse_proposal-some _ h = cc
