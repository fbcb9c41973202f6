-- ===== src/Apis/Validation/Routes/Referred.antt =====
-- What a route with no validation errors holds: its actions name declared upstreams.
use aspenmesh_k3s_multiclust.Prelude.{
  ℕ, ◌+◌, String, ◌≡◌, ◌≢◌, refl, sym, ap, subst, ◌⊎◌, inl, inr, Bool, true, false, not, Option,
  none, some, List, [], ◌∷◌, ◌++◌, ◌==◌, eq_iff, arith, Elem, append-empty, Bool-cases, length, eqb,
  ltb, if◌then◌else◌, some_inj,
}
use aspenmesh_k3s_multiclust.Prelude.Integers.{ℤ, pos, negsuc, eqb_int}
use aspenmesh_k3s_multiclust.K8s.FieldErrors.{
  FieldPath, child, FieldError, not_found, required, invalid,
}
use aspenmesh_k3s_multiclust.Apis.Types.{Action, ActionProxy, Split, Match, Route}
use aspenmesh_k3s_multiclust.Apis.Validation.{
  ValidationLibrary, if_given, each_at, has, each_at-empty, has-Elem,
}
use aspenmesh_k3s_multiclust.Apis.Validation.Names.{validate_upstream_name, validate_policies}
use aspenmesh_k3s_multiclust.Apis.Validation.Actions.{
  one_if, given, count_actions, validate_referenced_upstream, validate_action_proxy,
  validate_action,
}
use aspenmesh_k3s_multiclust.Apis.Validation.Routes.{
  total_weight, split_errors, validate_splits, splits_if_any, one_if_any, validate_condition,
  validate_match, field_count, count_message, route_field_errors, validate_error_page,
  validate_route_path, validate_route,
}

-- The upstreams that the action names are declared.
pub record UsesDeclared (names : List String) (action : Action) : Type 0 where
  pub passes : action.pass ≢ "" → Elem action.pass names
  pub proxies : (p : ActionProxy) → action.proxy ≡ some p → Elem p.upstream names

-- There are at least two splits, their weights sum up to 100, and each has an action.
pub record AreSplits (names : List String) (splits : List Split) : Type 0 where
  pub several : ltb (length splits) 2 ≡ false
  pub whole : total_weight (pos 0) splits ≡ pos 100
  pub actions :
      (s : Split)
      → Elem s splits
      → (action : Action) × (s.action ≡ some action) × UsesDeclared names action

pub record IsSplitOrAction (names : List String) (action : Option Action) (splits : List Split)
    : Type 0 where
  pub uses : (a : Action) → action ≡ some a → UsesDeclared names a
  pub divided : (splits ≡ []) ⊎ AreSplits names splits

-- Exactly one of an action, splits, and the reference to a route is there.
pub data HasOneOf : Option Action → List Split → String → Type 0 where
  only_action : (action : Action) → HasOneOf (some action) [] ""
  only_splits : (split : Split) (splits : List Split) → HasOneOf none (split ∷ splits) ""
  only_route : (route : String) → route ≢ "" → HasOneOf none [] route

-- The matches are in addition to these, and each of them has an action or splits.
pub record IsReferred (names : List String) (r : Route) : Type 0 where
  pub one : HasOneOf r.action r.splits r.route
  pub served : IsSplitOrAction names r.action r.splits
  pub matches :
      (m : Match)
      → Elem m r.matches
      → IsSplitOrAction names m.action m.splits × HasOneOf m.action m.splits ""

error_if-empty : {A : Type 0} (b : Bool) (e : A) → (if b then [] else e ∷ []) ≡ [] → b ≡ true
error_if-empty true e h = refl
error_if-empty false e h = cc

unless_error-empty :
    {A : Type 0} (b : Bool) (e : A) (es : List A)
    → (if b then e ∷ [] else es) ≡ []
    → (b ≡ false) × (es ≡ [])
unless_error-empty true e es h = cc
unless_error-empty false e es h = (refl, h)

eqb_int-eq : (m n : ℤ) → eqb_int m n ≡ true → m ≡ n
eqb_int-eq (pos m) (pos n) h = ap pos (ground arith)
eqb_int-eq (pos m) (negsuc n) h = cc
eqb_int-eq (negsuc m) (pos n) h = cc
eqb_int-eq (negsuc m) (negsuc n) h = ap negsuc (ground arith)

eqb-eq : (m n : ℕ) → eqb m n ≡ true → m ≡ n
eqb-eq m n h = ground arith

-- By the count of the fields that are there.
counted :
    (action : Option Action) (splits : List Split) (route : String) (named : Bool)
    → (route == "") ≡ not named
    → given action + one_if_any splits + one_if named ≡ 1
    → HasOneOf action splits route
counted (some a) [] route false e h =
    subst (HasOneOf (some a) []) (sym ((eq_iff route "").0 e)) (only_action a)
counted none (s ∷ splits) route false e h =
    subst (HasOneOf none (s ∷ splits)) (sym ((eq_iff route "").0 e)) (only_splits s splits)
counted none [] route true e h = only_route route (λ given. cc ((eq_iff route "").1 given, e))
counted (some a) (s ∷ splits) route named e h = absurd (omega arith)
counted (some a) [] route true e h = absurd (omega arith)
counted none (s ∷ splits) route true e h = absurd (omega arith)
counted none [] route false e h = absurd (omega arith)

-- The count of the source for a route, and for a match.
route_counted : (r : Route) → field_count r false ≡ 1 → HasOneOf r.action r.splits r.route
route_counted r h = elim (Bool-cases (r.route == "")) [
  | inl e ↦ counted r.action r.splits r.route false e (rw e at h)
  | inr e ↦ counted r.action r.splits r.route true e (rw e at h)
]

match_counted :
    (m : Match) → given m.action + one_if_any m.splits ≡ 1 → HasOneOf m.action m.splits ""
match_counted m h = counted m.action m.splits "" false refl (omega arith)

module _ (lib : ValidationLibrary) (is_plus : Bool) (names : List String) where
  validate_referenced_upstream-empty :
      (name : String) (path : FieldPath)
      → validate_referenced_upstream lib name path names ≡ []
      → Elem name names
  unfolding validate_referenced_upstream
  validate_referenced_upstream-empty name path h =
      has-Elem name names (by_errors (validate_upstream_name lib name path) h)
    where
      by_errors :
          (errors : List FieldError)
          → elim errors [
            | e ∷ es ↦ e ∷ es
            | [] ↦ if has names name then [] else not_found path name ∷ []
          ]
            ≡ []
          → has names name ≡ true
      by_errors [] q = error_if-empty (has names name) _ q
      by_errors (e ∷ es) q = cc

  pass_errors :
      (pass : String) (path : FieldPath)
      → (if pass == "" then [] else validate_referenced_upstream lib pass path names) ≡ []
      → pass ≢ ""
      → Elem pass names
  pass_errors pass path h given_pass = elim (Bool-cases (pass == "")) [
    | inl e ↦ absurd (given_pass ((eq_iff pass "").0 e))
    | inr e ↦ validate_referenced_upstream-empty pass path (rw e at h)
  ]

  proxy_errors :
      (p : ActionProxy) (path : FieldPath) (route_path : String) (internal : Bool)
      → validate_action_proxy lib is_plus p path names route_path internal ≡ []
      → Elem p.upstream names
  unfolding validate_action_proxy
  proxy_errors p path route_path internal h =
      validate_referenced_upstream-empty p.upstream (child path "upstream")
        (append-empty _ _ (append-empty _ _ (append-empty _ _ h).0).0).0

  if_given-empty :
      {A : Type 0} (check : A → List FieldError) (o : Option A) (a : A)
      → if_given check o ≡ []
      → o ≡ some a
      → check a ≡ []
  if_given-empty check none a h e = cc
  if_given-empty check (some b) a h e = rw (← some_inj e) h

  pub validate_action-UsesDeclared :
      (action : Action) (path : FieldPath) (route_path : String) (internal : Bool)
      → validate_action lib is_plus action path names route_path internal ≡ []
      → UsesDeclared names action
  unfolding validate_action
  validate_action-UsesDeclared action path route_path internal h =
      let (one, rest) = unless_error-empty (not (eqb (count_actions action) 1)) _ _ h in
      let (front, proxy) = append-empty _ _ rest in
      let pass = (append-empty _ _ (append-empty _ _ front).0).0 in
      record {
        passes = pass_errors action.pass (child path "pass") pass;
        proxies = λ p e.
            proxy_errors p (child path "proxy") route_path internal
              (if_given-empty _ action.proxy p proxy e);
      }

  split_errors-empty :
      (route_path : String) (s : Split) (here : FieldPath)
      → split_errors lib is_plus names route_path s here ≡ []
      → (action : Action) × (s.action ≡ some action) × UsesDeclared names action
  split_errors-empty route_path s here h = by_action s.action refl (append-empty _ _ h).1
    where
      by_action :
          (o : Option Action)
          → s.action ≡ o
          → elim o [
            | none ↦ required (child here "action") "" ∷ []
            | some action ↦
                validate_action lib is_plus action (child here "action") names route_path true
          ]
            ≡ []
          → (action : Action) × (s.action ≡ some action) × UsesDeclared names action
      by_action none e q = cc
      by_action (some a) e q =
          (a, e, validate_action-UsesDeclared a (child here "action") route_path true q)

  validate_splits-AreSplits :
      (splits : List Split) (path : FieldPath) (route_path : String)
      → validate_splits lib is_plus splits path names route_path ≡ []
      → AreSplits names splits
  unfolding validate_splits
  validate_splits-AreSplits splits path route_path h =
      let (several, rest) = unless_error-empty (ltb (length splits) 2) _ _ h in
      let (each, whole) = append-empty _ _ rest in
      record {
        several = several;
        whole = eqb_int-eq _ (pos 100) (error_if-empty _ _ whole);
        actions = λ s m.
            let (here, e) =
              each_at-empty (split_errors lib is_plus names route_path) path 0 splits s each m in
            split_errors-empty route_path s here e;
      }

  splits_if_any-divided :
      (splits : List Split) (path : FieldPath) (route_path : String)
      → splits_if_any lib is_plus splits path names route_path ≡ []
      → (splits ≡ []) ⊎ AreSplits names splits
  splits_if_any-divided [] path route_path h = inl refl
  splits_if_any-divided (s ∷ splits) path route_path h =
      inr (validate_splits-AreSplits (s ∷ splits) path route_path h)

  validate_match-empty :
      (route_path : String) (m : Match) (path : FieldPath)
      → validate_match lib is_plus names route_path m path ≡ []
      → IsSplitOrAction names m.action m.splits × HasOneOf m.action m.splits ""
  unfolding validate_match
  validate_match-empty route_path m path h =
      let conditions : List FieldError =
        (if eqb (length m.conditions) 0
          then required (child path "conditions") "must specify at least one condition" ∷ []
          else each_at (validate_condition lib is_plus) (child path "conditions") 0 m.conditions) in
      let check : Action → List FieldError = (λ action.
        validate_action lib is_plus action (child path "action") names route_path true) in
      let (front, count) = append-empty (conditions ++ if_given check m.action ++ _) _ h in
      let (most, splits) = append-empty (conditions ++ if_given check m.action) _ front in
      let action = (append-empty conditions _ most).1 in
      (
        record {
          uses = λ a e.
              validate_action-UsesDeclared a (child path "action") route_path true
                (if_given-empty check m.action a action e);
          divided = splits_if_any-divided m.splits (child path "splits") route_path splits;
        },
        match_counted m (
            eqb-eq _ 1 (
              error_if-empty _ (invalid path "" "must specify exactly one of `action` or `splits`")
                count)),
      )

  pub validate_route-IsReferred :
      (r : Route) (path : FieldPath) (namespace : String)
      → validate_route lib is_plus r path names false namespace ≡ []
      → IsReferred names r
  unfolding validate_route
  validate_route-IsReferred r path namespace h =
      let check : Action → List FieldError =
        (λ action. validate_action lib is_plus action (child path "action") names r.path false) in
      let start : List FieldError =
        (validate_route_path lib is_plus r.path (child path "path")
          ++ validate_policies lib r.policies (child path "policies") namespace) in
      let check_match = validate_match lib is_plus names r.path in
      let (h7, count) = append-empty _ _ h in
      let (h6, field) = append-empty _ (route_field_errors lib is_plus r path false) h7 in
      let (h5, pages) =
        append-empty _
          (each_at (validate_error_page lib is_plus) (child path "errorPages") 0 r.error_pages)
          h6 in
      let (h4, matches) =
        append-empty _ (each_at check_match (child path "matches") 0 r.matches) h5 in
      let (h3, splits) = append-empty (start ++ if_given check r.action) _ h4 in
      let action = (append-empty start (if_given check r.action) h3).1 in
      record {
        one =
            route_counted r
              (eqb-eq _ 1 (error_if-empty _ (invalid path "" (count_message r false)) count));
        served = record {
          uses = λ a e.
              validate_action-UsesDeclared a (child path "action") r.path false
                (if_given-empty check r.action a action e);
          divided = splits_if_any-divided r.splits (child path "splits") r.path splits;
        };
        matches = λ m k.
            let (here, e) =
              each_at-empty check_match (child path "matches") 0 r.matches m matches k in
            validate_match-empty r.path m here e;
      }
