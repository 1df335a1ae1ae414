-- ===== src/Api/Conflicts.antt =====
-- The conflicts of a node selector with those of other resources of its kind (findNodeSelectorConflicts
-- of api/v1alpha1/webhook_helpers.go). Kubernetes' match of a label selector, `reflect.DeepEqual` of
-- selectors and the listing of nodes are parameters; the Go map of peers is a list, in the order of
-- its iteration.
use cluster_power_manager.Base.{
  ◌≡◌, refl, ◌∙◌, ap, Bool, true, false, not, ◌&&◌, ◌||◌, List, [], ◌∷◌, ◌++◌, Option, none, some,
  String, arith, if◌then◌else◌, Bool-cases, Option-cases, inl, inr,
}
use cluster_power_manager.Agent.Cluster.{LabelSelector}
use cluster_power_manager.Api.Profiles.{all, is_empty, listed}

-- The peers that share the selector, or a node.
pub data Conflict : Type 0 where
  identical : String → Conflict
  same_nodes : String → List String → Conflict

pub data FieldError : Type 0 where
  invalid_selector nodes_unlisted : FieldError
  invalid_peer : String → FieldError
  conflicting : List Conflict → FieldError

abbrev pub Labels : Type 0
Labels = List (String × String)

abbrev pub Node : Type 0
Node = String × Labels

module _ (selects : LabelSelector → Option (Labels → Bool))
    (same : LabelSelector → LabelSelector → Bool) where
  unfoldable pub identical_peers : LabelSelector → List (String × LabelSelector) → List Conflict
  identical_peers self [] = []
  identical_peers self (p ∷ ps) =
      let rest = identical_peers self ps in if same self p.1 then identical p.0 ∷ rest else rest

  unfoldable pub other_peers :
      LabelSelector → List (String × LabelSelector) → List (String × LabelSelector)
  other_peers self [] = []
  other_peers self (p ∷ ps) =
      let rest = other_peers self ps in if same self p.1 then rest else p ∷ rest

  unfoldable pub matching_nodes : (Labels → Bool) → List Node → List String
  matching_nodes matches [] = []
  matching_nodes matches (n ∷ ns) =
      let rest = matching_nodes matches ns in if matches n.1 then n.0 ∷ rest else rest

  abbrev pub add_conflict : String → List String → List Conflict → List Conflict
  add_conflict peer [] conflicts = conflicts
  add_conflict peer (n ∷ ns) conflicts = conflicts ++ (same_nodes peer (n ∷ ns) ∷ [])

  abbrev pub conflicts_error : List Conflict → List FieldError
  conflicts_error [] = []
  conflicts_error (c ∷ cs) = conflicting (c ∷ cs) ∷ []

  -- The last argument holds the conflicts so far.
  unfoldable pub check_peers :
      List Node → List (String × LabelSelector) → List Conflict → List FieldError
  check_peers nodes [] conflicts = conflicts_error conflicts
  check_peers nodes (p ∷ ps) conflicts = elim (selects p.1) [
    | none ↦ invalid_peer p.0 ∷ []
    | some matches ↦
        check_peers nodes ps (add_conflict p.0 (matching_nodes matches nodes) conflicts)
  ]

  unfoldable pub check_nodes :
      Option (List Node) → List (String × LabelSelector) → List Conflict → List FieldError
  check_nodes nodes [] conflicts = conflicts_error conflicts
  check_nodes none (p ∷ ps) conflicts = nodes_unlisted ∷ []
  check_nodes (some nodes) (p ∷ ps) conflicts = check_peers nodes (p ∷ ps) conflicts

  -- `list` is the listing of the nodes that a selector matches.
  unfoldable pub find_node_selector_conflicts :
      ((Labels → Bool) → Option (List Node))
      → LabelSelector
      → List (String × LabelSelector)
      → List FieldError
  find_node_selector_conflicts list self peers = elim (selects self) [
    | none ↦ invalid_selector ∷ []
    | some matches ↦
        check_nodes (list matches) (other_peers self peers) (identical_peers self peers)
  ]

  -- No node that is listed is matched by the peer, whose selector is valid.
  abbrev pub is_apart : List Node → String × LabelSelector → Bool
  is_apart nodes p = elim (selects p.1) [
    | none ↦ false
    | some matches ↦ all (λ n. not (matches n.1)) nodes
  ]

  abbrev pub is_distinct : LabelSelector → String × LabelSelector → Bool
  is_distinct self p = not (same self p.1)

  abbrev pub are_apart : Option (List Node) → List (String × LabelSelector) → Bool
  are_apart nodes peers = is_empty peers || listed (λ ns. all (is_apart ns) peers) nodes

  matching_nodes-all :
      (matches : Labels → Bool) (ns : List Node)
      → is_empty (matching_nodes matches ns) ≡ all (λ n. not (matches n.1)) ns
  unfolding matching_nodes
  matching_nodes-all matches [] = refl
  matching_nodes-all matches (n ∷ ns) = ground (arith, matching_nodes-all matches ns)

  identical_peers-all :
      (self : LabelSelector) (peers : List (String × LabelSelector))
      → is_empty (identical_peers self peers) ≡ all (is_distinct self) peers
  unfolding identical_peers
  identical_peers-all self [] = refl
  identical_peers-all self (p ∷ ps) = ground (arith, identical_peers-all self ps)

  other_peers-all :
      (self : LabelSelector) (peers : List (String × LabelSelector))
      → all (is_distinct self) peers ≡ true
      → other_peers self peers ≡ peers
  unfolding other_peers
  other_peers-all self [] h = refl
  other_peers-all self (p ∷ ps) h = ground (arith, other_peers-all self ps)

  conflicts_error-is_empty : (cs : List Conflict) → is_empty (conflicts_error cs) ≡ is_empty cs
  conflicts_error-is_empty [] = refl
  conflicts_error-is_empty (c ∷ cs) = refl

  add_conflict-is_empty :
      (peer : String) (ns : List String) (cs : List Conflict)
      → is_empty (add_conflict peer ns cs) ≡ (is_empty ns && is_empty cs)
  add_conflict-is_empty peer [] cs = refl
  add_conflict-is_empty peer (n ∷ ns) [] = refl
  add_conflict-is_empty peer (n ∷ ns) (c ∷ cs) = refl

  check_peers-all :
      (nodes : List Node) (peers : List (String × LabelSelector)) (cs : List Conflict)
      → is_empty (check_peers nodes peers cs) ≡ (all (is_apart nodes) peers && is_empty cs)
  unfolding check_peers
  check_peers-all nodes [] cs = conflicts_error-is_empty cs
  check_peers-all nodes (p ∷ ps) cs = elim (Option-cases (selects p.1)) [
    | inl h ↦ ground (arith, h)
    | inr (matches, h) ↦ ground (
      arith,
      h,
      check_peers-all nodes ps (add_conflict p.0 (matching_nodes matches nodes) cs),
      add_conflict-is_empty p.0 (matching_nodes matches nodes) cs,
      matching_nodes-all matches nodes,
    )
  ]

  check_nodes-all :
      (nodes : Option (List Node)) (peers : List (String × LabelSelector)) (cs : List Conflict)
      → is_empty (check_nodes nodes peers cs) ≡ (are_apart nodes peers && is_empty cs)
  unfolding check_nodes
  check_nodes-all nodes [] cs = conflicts_error-is_empty cs
  check_nodes-all none (p ∷ ps) cs = refl
  check_nodes-all (some nodes) (p ∷ ps) cs = check_peers-all nodes (p ∷ ps) cs

  -- What the check promises: the selector is valid, no peer has it, and where there are peers, the
  -- nodes that it matches are listed and none of them is matched by a peer, whose selector is valid.
  abbrev pub is_separate :
      ((Labels → Bool) → Option (List Node)) → LabelSelector → List (String × LabelSelector) → Bool
  is_separate list self peers = elim (selects self) [
    | none ↦ false
    | some matches ↦ all (is_distinct self) peers && are_apart (list matches) peers
  ]

  others-separate :
      (nodes : Option (List Node)) (self : LabelSelector) (peers : List (String × LabelSelector))
      → is_empty (check_nodes nodes (other_peers self peers) (identical_peers self peers))
        ≡ (all (is_distinct self) peers && are_apart nodes peers)
  others-separate nodes self peers =
      check_nodes-all nodes (other_peers self peers) (identical_peers self peers)
      ∙ ap (λ b. are_apart nodes (other_peers self peers) && b) (identical_peers-all self peers)
      ∙ elim (Bool-cases (all (is_distinct self) peers)) [
        | inl h ↦
            ap (λ ps. are_apart nodes ps && all (is_distinct self) peers)
              (other_peers-all self peers h)
            ∙ ground arith
        | inr h ↦ ground (arith, h)
      ]

  -- A node selector is admitted where, and only where, it is separate from its peers: the selector is
  -- valid, no peer has it, and where there are peers, the nodes that it matches are listed and none of
  -- them is matched by a peer, all of whose selectors are valid.
  pub find_node_selector_conflicts_lem :
      (list : (Labels → Bool) → Option (List Node)) (self : LabelSelector)
      (peers : List (String × LabelSelector))
      → is_empty (find_node_selector_conflicts list self peers) ≡ is_separate list self peers
  unfolding find_node_selector_conflicts
  find_node_selector_conflicts_lem list self peers = elim (Option-cases (selects self)) [
    | inl h ↦ ground (arith, h)
    | inr (matches, h) ↦ ground (arith, h, others-separate (list matches) self peers)
  ]
