-- ===== src/K8s/Validation/Accepted.antt =====
-- What an Ingress that passes the validation of its spec is like.
use aspenmesh_k3s_multiclust.Prelude.{append-empty}
use aspenmesh_k3s_multiclust.Prelude.{
  ◌⊎◌, inl, inr, not, all, ℕ, suc, String, ◌≡◌, refl, ap, true, false, Option, none, some, List, [],
  ◌∷◌, ◌++◌, map, ◌==◌, eq_iff, arith, Elem, any, Never, Distinct, Bool-cases, Elem-any,
  Option-cases, if◌then◌else◌, length, ltb, eqb,
}
use aspenmesh_k3s_multiclust.K8s.Objects.{Ingress, Rule, HttpPath, is_minion, is_master}
use aspenmesh_k3s_multiclust.K8s.FieldErrors.{FieldPath, new_path, FieldError}
use aspenmesh_k3s_multiclust.K8s.State.{Settings}
use aspenmesh_k3s_multiclust.K8s.Minions.{first_rule}
use aspenmesh_k3s_multiclust.K8s.Hosts.Stored.{IsReadable}
use aspenmesh_k3s_multiclust.K8s.Validation.{
  annotation_errors, paths_of, validate_hosts, validate_ingress_spec, validate_master_spec,
  validate_minion_spec, validate_ingress, kind_errors, tls_errors, rule_errors,
}

abbrev hosts_of : List Rule → List String
hosts_of rules = map (λ (r : Rule). r.host) rules

-- No host is empty, none occurs twice, and none is one of those seen before.
abbrev HostsFresh : List String → List String → Type 0
HostsFresh seen [] = Unit
HostsFresh seen (host ∷ hosts) =
    ((host == "") ≡ false) × (any (λ h. h == host) seen ≡ false) × HostsFresh (host ∷ seen) hosts

validate_hosts-HostsFresh :
    (path : FieldPath) (i : ℕ) (seen : List String) (rules : List Rule)
    → validate_hosts path i seen rules ≡ []
    → HostsFresh seen (hosts_of rules)
unfolding validate_hosts
validate_hosts-HostsFresh path i seen [] h = tt
validate_hosts-HostsFresh path i seen (r ∷ rules) h =
    let rec = validate_hosts-HostsFresh path (suc i) (r.host ∷ seen) rules in ground (arith, rec)

HostsFresh-unseen :
    (seen hosts : List String) (host : String)
    → HostsFresh seen hosts
    → Elem host seen
    → Elem host hosts
    → Never {0}
HostsFresh-unseen seen [] host f m n = n
HostsFresh-unseen seen (h ∷ hosts) host f m (inl e) =
    cc (Elem-any (λ s. s == h) host seen m ((eq_iff host h).1 e), f.1)
HostsFresh-unseen seen (h ∷ hosts) host f m (inr n) =
    HostsFresh-unseen (h ∷ seen) hosts host f.2 (inr m) n

HostsFresh-given :
    (seen hosts : List String) → HostsFresh seen hosts → all (λ host. not (host == "")) hosts ≡ true
HostsFresh-given seen [] f = refl
HostsFresh-given seen (h ∷ hosts) (given, unseen, rest) =
    ground (arith, given, HostsFresh-given (h ∷ seen) hosts rest)

HostsFresh-Distinct : (seen hosts : List String) → HostsFresh seen hosts → Distinct hosts
HostsFresh-Distinct seen [] f = tt
HostsFresh-Distinct seen (h ∷ hosts) f =
    (HostsFresh-unseen (h ∷ seen) hosts h f.2 (inl refl), HostsFresh-Distinct (h ∷ seen) hosts f.2)

-- What the documentation asks of an Ingress: at least one rule; hosts that are given and distinct; a
-- master has one rule and no paths; a minion has one rule, with paths, and no TLS.
abbrev pub AtLeastOne : List HttpPath → Type 0
AtLeastOne paths = (p : HttpPath) × (rest : List HttpPath) × (paths ≡ p ∷ rest)

abbrev pub OneRule : Ingress → (Rule → Type 0) → Type 0
OneRule ing P = (rule : Rule) × (ing.rules ≡ rule ∷ []) × P rule

pub record IsWellFormed (ing : Ingress) : Type 0 where
  pub has_rule : (rule : Rule) × (rules : List Rule) × (ing.rules ≡ rule ∷ rules)
  pub given : all (λ host. not (host == "")) (hosts_of ing.rules) ≡ true
  pub distinct : Distinct (hosts_of ing.rules)
  pub kind :
      ((is_master ing ≡ true) × OneRule ing (λ rule. paths_of rule ≡ []))
      ⊎ ((is_minion ing ≡ true)
          × (ing.tls_secrets ≡ [])
          × OneRule ing (λ rule. AtLeastOne (paths_of rule)))
      ⊎ ((is_master ing ≡ false) × (is_minion ing ≡ false))

spec-has_rule :
    (path : FieldPath) (ing : Ingress)
    → validate_ingress_spec path ing ≡ []
    → (rule : Rule) × (rules : List Rule) × (ing.rules ≡ rule ∷ rules)
      × HostsFresh [] (hosts_of ing.rules)
unfolding validate_ingress_spec
spec-has_rule path ing h = by_rules ing.rules refl h
  where
    by_rules :
        (rules : List Rule)
        → ing.rules ≡ rules
        → validate_ingress_spec path (record ing { rules = rules }) ≡ []
        → (rule : Rule) × (rest : List Rule) × (ing.rules ≡ rule ∷ rest)
          × HostsFresh [] (hosts_of ing.rules)
    by_rules [] e h = cc
    by_rules (rule ∷ rest) e h =
        (rule, rest, e, rw e (validate_hosts-HostsFresh path 0 [] (rule ∷ rest) h))

no_paths :
    (e : FieldError) (paths : List HttpPath)
    → (if ltb 0 (length paths) then e ∷ [] else []) ≡ []
    → paths ≡ []
no_paths e [] h = refl
no_paths e (p ∷ paths) h = ground arith

some_paths :
    (e : FieldError) (paths : List HttpPath)
    → (if eqb (length paths) 0 then e ∷ [] else []) ≡ []
    → AtLeastOne paths
some_paths e [] h = ground arith
some_paths e (p ∷ paths) h = (p, paths, refl)

no_secrets :
    (e : FieldError) (secrets : List String)
    → (if ltb 0 (length secrets) then e ∷ [] else []) ≡ []
    → secrets ≡ []
no_secrets e [] h = refl
no_secrets e (p ∷ secrets) h = ground arith

master-spec :
    (path : FieldPath) (ing : Ingress)
    → validate_master_spec path ing ≡ []
    → OneRule ing (λ rule. paths_of rule ≡ [])
unfolding validate_master_spec
master-spec path ing h = by_rules ing.rules refl h
  where
    by_rules :
        (rules : List Rule)
        → ing.rules ≡ rules
        → validate_master_spec path (record ing { rules = rules }) ≡ []
        → OneRule ing (λ rule. paths_of rule ≡ [])
    by_rules [] e h = cc
    by_rules (rule ∷ []) e h = (rule, e, no_paths _ (paths_of rule) h)
    by_rules (rule ∷ q ∷ rest) e h = cc

minion-spec :
    (path : FieldPath) (ing : Ingress)
    → validate_minion_spec path ing ≡ []
    → (ing.tls_secrets ≡ []) × OneRule ing (λ rule. AtLeastOne (paths_of rule))
unfolding validate_minion_spec tls_errors rule_errors
minion-spec path ing h =
    let (no_tls, one) = append-empty (tls_errors path ing) (rule_errors path ing.rules) h in
    (no_secrets _ ing.tls_secrets no_tls, by_rules ing.rules refl one)
  where
    by_rules :
        (rules : List Rule)
        → ing.rules ≡ rules
        → rule_errors path rules ≡ []
        → OneRule ing (λ rule. AtLeastOne (paths_of rule))
    by_rules [] e h = cc
    by_rules (rule ∷ []) e h = (rule, e, some_paths _ (paths_of rule) h)
    by_rules (rule ∷ q ∷ rest) e h = cc

kind_of_errors :
    (ing : Ingress)
    → kind_errors ing ≡ []
    → ((is_master ing ≡ true) × OneRule ing (λ rule. paths_of rule ≡ []))
      ⊎ ((is_minion ing ≡ true)
          × (ing.tls_secrets ≡ [])
          × OneRule ing (λ rule. AtLeastOne (paths_of rule)))
      ⊎ ((is_master ing ≡ false) × (is_minion ing ≡ false))
unfolding kind_errors
kind_of_errors ing h = elim (Bool-cases (is_master ing)) [
  | inl t ↦ inl (t, master-spec (new_path "spec") ing (rw t at h))
  | inr f ↦ elim (Bool-cases (is_minion ing)) [
    | inl t ↦
        let (no_tls, one) = minion-spec (new_path "spec") ing (rw (f, t) at h) in
        inr (inl (t, no_tls, one))
    | inr g ↦ inr (inr (f, g))
  ]
]

-- An Ingress for which the validation yields no error has a rule, its hosts are given and distinct,
-- a master has one rule and no paths, and a minion one rule, with paths, and no TLS.
pub accepted-IsWellFormed :
    (env : Settings) (ing : Ingress) → validate_ingress env ing ≡ [] → IsWellFormed ing
unfolding validate_ingress kind_errors
accepted-IsWellFormed env ing h =
    let (rest, none_of_kind) =
      append-empty (annotation_errors env ing ++ validate_ingress_spec (new_path "spec") ing)
        (kind_errors ing) h in
    let (none_of_annotations, none_of_spec) =
      append-empty (annotation_errors env ing) (validate_ingress_spec (new_path "spec") ing) rest in
    let (rule, rules, er, fresh) = spec-has_rule (new_path "spec") ing none_of_spec in
    record {
      has_rule = (rule, rules, er);
      given = HostsFresh-given [] (hosts_of ing.rules) fresh;
      distinct = HostsFresh-Distinct [] (hosts_of ing.rules) fresh;
      kind = kind_of_errors ing none_of_kind;
    }

master-not_minion : (ing : Ingress) → is_master ing ≡ true → is_minion ing ≡ false
unfolding is_minion is_master
master-not_minion ing t = ap (λ w. w == "minion") ((eq_iff _ "master").0 t)

abbrev paths_or_none : Option (List HttpPath) → List HttpPath
paths_or_none none = []
paths_or_none (some paths) = paths

paths-http :
    (rule : Rule) → AtLeastOne (paths_of rule) → (paths : List HttpPath) × (rule.http ≡ some paths)
paths-http rule (p, rest, e) = elim (Option-cases rule.http) [
  | inr found ↦ found
  | inl nil ↦ cc (e, ap paths_or_none nil)
]

-- A well-formed Ingress can be read.
pub IsWellFormed-IsReadable : (ing : Ingress) → IsWellFormed ing → IsReadable ing
unfolding first_rule
IsWellFormed-IsReadable ing wf =
    let (rule, rules, er) = wf.has_rule in
    elim wf.kind [
      | inl (t, one) ↦ (rule, rw er, inl (master-not_minion ing t))
      | inr (inl (t, no_tls, (r, e, more))) ↦ (r, rw e, inr (paths-http r more))
      | inr (inr (f, g)) ↦ (rule, rw er, inl g)
    ]
