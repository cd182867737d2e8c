-- ===== src/Adapters/Local.antt =====
-- Only local adapters are ever chosen.
use gpao_t.Prelude.{
  String, Bool, true, false, not, ◌&&◌, ◌||◌, ◌≡◌, refl, Option, none, some, List, [], ◌∷◌, map,
  ◌==◌, if◌then◌else◌, filter, find, has, or_option, All, All-find, All-filter_kept, All-filter,
  Bool-cases, inl, inr, eq_iff, if-holds, find-holds, length, arith, length-map, ◌∙◌, ◌+◌,
}
use gpao_t.Authority.{Decision, secret_gate}
use gpao_t.Adapters.{
  ModelAdapter, model_adapters, is_available, is_private_enough, private, select_model_adapter,
  ModelSelection, route_model, ToolAdapter, tool_adapters, Selection, unknown, admitted, refused,
  is_admitted_tool, choose_tool, select_tool, select_tool_adapters, tools_of,
}

-- A model that runs on this machine, without a call of a provider.
pub record IsLocal (a : ModelAdapter) : Type 0 where
  pub available : a.status ≡ "available"
  pub provider : a.provider ≡ "local"
  pub mode : a.execution_mode ≡ "local_preview"
  pub authority : a.authority ≡ "local_only"

-- What is available is local.
abbrev Local : ModelAdapter → Type 0
Local a = is_available a ≡ true → IsLocal a

model_adapters-Local : All Local model_adapters
model_adapters-Local = (
  λ h. record { available = refl; provider = refl; mode = refl; authority = refl },
  (
    λ h. record { available = refl; provider = refl; mode = refl; authority = refl },
    (λ h. cc, (λ h. cc, tt)),
  ),
)

and_right : (p q : Bool) → (p && q) ≡ true → q ≡ true
and_right true q h = h
and_right false q h = cc

or_option-holds :
    (P : ModelAdapter → Type 0) (o p : Option ModelAdapter)
    → ((a : ModelAdapter) → o ≡ some a → P a)
    → ((a : ModelAdapter) → p ≡ some a → P a)
    → (a : ModelAdapter) → or_option o p ≡ some a
    → P a
or_option-holds P none p h k a e = k a e
or_option-holds P (some b) p h k a e = h a e

-- Whatever classes and privacy are asked for, a model that is selected is an available local one.
pub select_model_adapter-IsLocal :
    (preferred_class fallback_class privacy : String) (a : ModelAdapter)
    → (select_model_adapter preferred_class fallback_class privacy).selected ≡ some a
    → IsLocal a
unfolding select_model_adapter
select_model_adapter-IsLocal preferred_class fallback_class privacy =
    let candidates = filter (λ a. has a.classes preferred_class) model_adapters in
    let safe = filter (is_private_enough privacy) candidates in
    let fallback : ModelAdapter → Bool = λ a. has a.classes fallback_class && is_available a in
    or_option-holds IsLocal (find is_available safe) (find fallback model_adapters)
      (λ a e.
        All-find Local is_available safe a
          (All-filter_kept Local (is_private_enough privacy) candidates (
            All-filter_kept Local (λ b. has b.classes preferred_class) model_adapters
              model_adapters-Local))
          e (find-holds is_available safe a e))
      (λ a e.
        All-find Local fallback model_adapters a model_adapters-Local e
          (and_right _ _ (find-holds fallback model_adapters a e)))

-- A turn with a kind and a decision routes to a model that exists, is local, and where an approval of
-- secrets is required, considers local models only.
pub data RoutedLocally (d : Decision) (s : ModelSelection) : Type 0 where
  routed :
      (a : ModelAdapter)
      → s.selected ≡ some a
      → IsLocal a
      → (has d.required_approvals secret_gate ≡ true → All (λ b. b.provider ≡ "local") s.considered)
      → RoutedLocally d s

private_considered :
    (adapters : List ModelAdapter)
    → All (λ b. b.provider ≡ "local") (filter (is_private_enough private) adapters)
private_considered [] = tt
private_considered (a ∷ adapters) = elim (Bool-cases (a.provider == "local")) [
  | inl e ↦ rw e ((eq_iff a.provider "local").0 e, private_considered adapters)
  | inr e ↦ rw e (private_considered adapters)
]

selected_class :
    (fast secret : Bool)
    → (a : ModelAdapter) × ((select_model_adapter
          (if fast then "fast_low_latency" else "strong_reasoning")
          "local_small_model"
          (if secret then private else "standard")).selected
        ≡ some a)
unfolding select_model_adapter
selected_class true true = (_, refl)
selected_class true false = (_, refl)
selected_class false true = (_, refl)
selected_class false false = (_, refl)

-- Every turn is routed to an available local model, and where it needs an approval for a secret or an
-- account, all models that are considered are local.
pub route_model-RoutedLocally :
    (kind : String) (d : Decision) → RoutedLocally d (route_model kind d).selection
unfolding route_model
route_model-RoutedLocally kind d =
    let (a, e) = selected_class (kind == "follow_up") (has d.required_approvals secret_gate) in
    let preferred : String =
      if kind == "follow_up" then "fast_low_latency" else "strong_reasoning" in
    let privacy : String = if has d.required_approvals secret_gate then private else "standard" in
    routed a e (select_model_adapter-IsLocal preferred "local_small_model" privacy a e) (λ h.
      let candidates = filter (λ b. has b.classes preferred) model_adapters in
      rw h (private_considered candidates))

-- The tools that stay on this machine.
abbrev pub local_tool_ids : List String
local_tool_ids = "local_file_read" ∷ "local_replay" ∷ "local_draft" ∷ []

abbrev KnownTool : ToolAdapter → Type 0
KnownTool a = a.authority ≡ "local_only" → has local_tool_ids a.id ≡ true

tool_adapters-KnownTool : All KnownTool tool_adapters
tool_adapters-KnownTool = (λ h. refl, (λ h. refl, (λ h. refl, (λ h. cc, (λ h. cc, tt)))))

-- A tool that was admitted: a local one, where local previews are allowed.
abbrev pub AdmittedTool : Decision → Selection → Type 0
AdmittedTool d (unknown id) = ⊥
AdmittedTool d (admitted a) =
    (a.authority ≡ "local_only")
    × (has d.allowed_actions "local_preview" ≡ true)
    × (has local_tool_ids a.id ≡ true)
AdmittedTool d (refused a reason) = ⊥

and_left : (p q : Bool) → (p && q) ≡ true → p ≡ true
and_left true q h = refl
and_left false q h = cc

select_tool-AdmittedTool :
    (d : Decision) (id : String)
    → is_admitted_tool (select_tool d id) ≡ true
    → AdmittedTool d (select_tool d id)
unfolding select_tool
select_tool-AdmittedTool d id =
    chosen (find (λ a. a.id == id) tool_adapters)
      (λ a e. All-find KnownTool (λ b. b.id == id) tool_adapters a tool_adapters-KnownTool e)
  where
    Checked : Selection → Type 0
    Checked s = is_admitted_tool s ≡ true → AdmittedTool d s

    chosen :
        (o : Option ToolAdapter)
        → ((a : ToolAdapter) → o ≡ some a → KnownTool a)
        → Checked (choose_tool id (has d.allowed_actions "local_preview") d.required_approvals o)
    chosen none known = λ h. cc
    chosen (some a) known =
        if-holds Checked (a.authority == "local_only" && has d.allowed_actions "local_preview") _ _
          (λ e h. (
            (eq_iff a.authority "local_only").0 (and_left (a.authority == "local_only") _ e),
            and_right (a.authority == "local_only") _ e,
            known a refl
                ((eq_iff a.authority "local_only").0 (and_left (a.authority == "local_only") _ e)),
          ))
          (λ e.
            if-holds Checked (has d.required_approvals a.authority || a.status == "blocked") _ _
              (λ f h. cc) (λ f h. cc))

filter-not-length {ℓ} :
    {A : Type ℓ} (p : A → Bool) (xs : List A)
    → length (filter p xs) + length (filter (λ x. not (p x)) xs) ≡ length xs
filter-not-length p [] = omega arith
filter-not-length p (x ∷ xs) = elim (Bool-cases (p x)) [
  | inl e ↦ rw e (omega (arith, filter-not-length p xs))
  | inr e ↦ rw e (omega (arith, filter-not-length p xs))
]

-- Every tool that is admitted is a local one, in a turn whose decision allows local previews, and each
-- requested tool is either admitted or blocked.
pub select_tool_adapters-AdmittedTool :
    (d : Decision) (requested : List String)
    → All (AdmittedTool d) (select_tool_adapters d requested).admitted_tools
      × (length (select_tool_adapters d requested).admitted_tools
            + length (select_tool_adapters d requested).blocked_tools
          ≡ length (tools_of requested))
unfolding select_tool_adapters
select_tool_adapters-AdmittedTool d requested = (
  All-filter (AdmittedTool d) is_admitted_tool (select_tool d) (tools_of requested)
      (λ id h. select_tool-AdmittedTool d id h),
  filter-not-length is_admitted_tool (map (select_tool d) (tools_of requested))
      ∙ length-map (select_tool d) (tools_of requested),
)
