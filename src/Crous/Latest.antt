-- ===== src/Crous/Latest.antt =====
-- The tool that `discover_current_tool` chooses.
use crous_apartment_monitori.Crous.Discovery.{
  Tool, ToolEntry, enabled_tools, tool_of, discover_tools, is_public, key_lt, is_residual, latest,
  latest_of, discover_current_tool,
}
use crous_apartment_monitori.Crous.Parser.{ClientError}
use crous_apartment_monitori.Common.{
  nothing_left, ltb, length, eq_iff, sym, ap, In-All, inl, inr, String, Option-cases, some, ◌⊎◌,
  ◌↔◌, ◌≤◌, Result, err, In, In-filter, ◌≡◌, refl, subst, inl, inr, true, false, List, [], ◌∷◌,
  arith, if◌then◌else◌, ok, Bool-cases, filter, All, sym, ap, str_eq, ltb, length,
}

-- The choice among the rest starts from one that neither exceeds.
ahead :
    (tool next best : Tool)
    → key_lt best (if key_lt tool next then next else tool) ≡ false
    → (key_lt best tool ≡ false) × (key_lt best next ≡ false)
unfolding key_lt
ahead tool next best h = elim (Bool-cases (key_lt tool next)) [
  | inl q ↦ ground (arith, q, h)
  | inr q ↦ ground (arith, q, h)
]

irreflexive : (t : Tool) → key_lt t t ≡ false
unfolding key_lt
irreflexive t = ground arith

latest-best :
    (tool : Tool) (tools : List Tool)
    → In (latest tool tools) (tool ∷ tools)
      × All (λ t. key_lt (latest tool tools) t ≡ false) (tool ∷ tools)
unfolding latest
latest-best tool [] = (inl refl, (irreflexive tool, tt))
latest-best tool (next ∷ tools) =
    let (m, best) = latest-best (if key_lt tool next then next else tool) tools in
    let (past, rest) =
      ahead tool next (latest (if key_lt tool next then next else tool) tools) best.0 in
    (
      elim (Bool-cases (key_lt tool next)) [
        | inl q ↦ ground (arith, q, m)
        | inr q ↦ ground (arith, q, m)
      ],
      (past, (rest, best.1)),
    )

-- The mechanisms of the public campaigns.
abbrev pub Public : String → Type 0
Public mechanism = (mechanism ≡ "flow") ⊎ (mechanism ≡ "residual")

-- The tool is that of the entry, which is enabled.
pub record Describes (value : ToolEntry) (tool : Tool) : Type 0 where
  pub enabled : value.is_enabled ≡ true
  pub id : value.id ≡ some tool.id
  pub year : value.management_year ≡ tool.management_year
  pub mechanism : value.mechanism ≡ tool.mechanism

-- A tool is no later than the chosen one: its year is no greater, in the same year it is residual
-- only if the other is, and of two with the same year and mechanism its id is no greater.
pub record NoLater (tool other : Tool) : Type 0 where
  pub year : other.management_year ≤ tool.management_year
  pub residual :
      other.management_year ≡ tool.management_year
      → other.mechanism ≡ "residual"
      → tool.mechanism ≡ "residual"
  pub id :
      other.management_year ≡ tool.management_year
      → other.mechanism ≡ tool.mechanism
      → other.id ≤ tool.id

-- What the choice among the entries of the site has to be.
abbrev pub Chosen : List ToolEntry → Result ClientError Tool → Type 0
Chosen values (err e) =
    (value : ToolEntry) (tool : Tool)
    → In value values
    → Describes value tool
    → ¬ Public tool.mechanism
Chosen values (ok tool) =
    ((value : ToolEntry) × In value values × Describes value tool)
    × Public tool.mechanism
    × ((value : ToolEntry) (other : Tool)
        → In value values
        → Describes value other
        → Public other.mechanism
        → NoLater tool other)

tool_of-Describes :
    (value : ToolEntry) (tool : Tool) → (tool_of value ≡ some tool) ↔ Describes value tool
unfolding tool_of
tool_of-Describes value tool = (to, from)
  where
    to : tool_of value ≡ some tool → Describes value tool
    to h = elim (Option-cases value.id) [
      | inl q ↦ absurd (ground arith)
      | inr (k, q) ↦ record {
        enabled = ground arith;
        id = ground arith;
        year = ground arith;
        mechanism = ground arith;
      }
    ]

    from : Describes value tool → tool_of value ≡ some tool
    from d = ground (arith, d.enabled, d.id, d.year, d.mechanism)

enabled-In :
    (values : List ToolEntry) (tool : Tool)
    → In tool (enabled_tools values)
    → (value : ToolEntry) × In value values × (tool_of value ≡ some tool)
unfolding enabled_tools
enabled-In [] tool m = absurd m
enabled-In (value ∷ values) tool m = elim (Option-cases (tool_of value)) [
  | inl q ↦ let (v, n, h) = enabled-In values tool (ground arith) in (v, inr n, h)
  | inr (t, q) ↦
      let n : (tool ≡ t) ⊎ In tool (enabled_tools values) = ground (arith, q, m) in
      elim n [
        | inl e ↦ (value, inl refl, ground (arith, q, e))
        | inr k ↦ let (v, n, h) = enabled-In values tool k in (v, inr n, h)
      ]
]

In-enabled :
    (values : List ToolEntry) (value : ToolEntry) (tool : Tool)
    → In value values
    → tool_of value ≡ some tool
    → In tool (enabled_tools values)
unfolding enabled_tools
In-enabled [] value tool m h = absurd m
In-enabled (v ∷ values) value tool (inl e) h = ground (arith, e, h, ap tool_of e)
In-enabled (v ∷ values) value tool (inr m) h = ground (arith, In-enabled values value tool m h)

is_public-Public : (tool : Tool) → (is_public tool ≡ true) ↔ Public tool.mechanism
unfolding is_public
is_public-Public tool = (
  λ h. elim (Bool-cases (str_eq tool.mechanism "flow")) [
    | inl q ↦ inl ((eq_iff tool.mechanism "flow").0 q)
    | inr q ↦ inr ((eq_iff tool.mechanism "residual").0 (ground arith))
  ],
  λ p. elim p [
    | inl e ↦ ground (arith, (eq_iff tool.mechanism "flow").1 e)
    | inr e ↦ ground (arith, (eq_iff tool.mechanism "residual").1 e)
  ],
)

-- The tools that compete are those that describe an enabled public entry.
competing :
    (values : List ToolEntry) (tool : Tool)
    → In tool (filter is_public (enabled_tools values))
      ↔ (((value : ToolEntry) × In value values × Describes value tool) × Public tool.mechanism)
competing values tool = (
  λ m.
      let (n, p) = (In-filter is_public tool (enabled_tools values)).0 m in
      let (value, k, h) = enabled-In values tool n in
      ((value, k, (tool_of-Describes value tool).0 h), (is_public-Public tool).0 p),
  λ d.
      let ((value, k, h), p) = d in
      (In-filter is_public tool (enabled_tools values)).1 (
        In-enabled values value tool k ((tool_of-Describes value tool).1 h),
        (is_public-Public tool).1 p,
      ),
)

key_lt-NoLater : (tool other : Tool) → key_lt tool other ≡ false → NoLater tool other
unfolding key_lt is_residual
key_lt-NoLater tool other h = record {
  year = ground arith;
  residual = λ y e.
      (eq_iff tool.mechanism "residual").0
        (ground (arith, y, (eq_iff other.mechanism "residual").1 e));
  id = λ y e. ground (arith, y, ap (λ m. str_eq m "residual") e);
}

-- Where no tool is enabled, none is public.
discovered :
    (values : List ToolEntry)
    → discover_current_tool values ≡ latest_of (filter is_public (enabled_tools values))
unfolding discover_current_tool discover_tools latest_of
discovered values = elim (Bool-cases (ltb 0 (length (enabled_tools values)))) [
  | inl q ↦ ground (arith, q)
  | inr q ↦
      let e = nothing_left (enabled_tools values) (ground arith) in
      ground (arith, q, ap (filter is_public) e, ap latest_of (ap (filter is_public) e))
]

chosen :
    (values : List ToolEntry) (tools : List Tool)
    → tools ≡ filter is_public (enabled_tools values)
    → Chosen values (latest_of tools)
unfolding latest_of
chosen values [] e =
    λ value tool m d p. subst (In tool) (sym e) ((competing values tool).1 ((value, m, d), p))
chosen values (first ∷ tools) e =
    let (m, best) = latest-best first tools in
    let (there, public) =
      (competing values (latest first tools)).0 (subst (In (latest first tools)) e m) in
    (
      there,
      public,
      λ value other n d p. key_lt-NoLater (latest first tools) other (
          In-All (λ t. key_lt (latest first tools) t ≡ false) other (first ∷ tools) best
            (subst (In other) (sym e) ((competing values other).1 ((value, n, d), p)))),
    )

-- If the client finds a tool, it is that of an entry of the site that is enabled, with a public
-- mechanism, and no enabled entry with a public mechanism is of a later year, nor in the same year
-- residual where the tool is not, nor of the same year and mechanism with a greater id. If it finds
-- none, no entry of the site is enabled, has an id and a public mechanism.
pub discover_current_tool-Chosen :
    (values : List ToolEntry) → Chosen values (discover_current_tool values)
discover_current_tool-Chosen values =
    subst (Chosen values) (sym (discovered values))
      (chosen values (filter is_public (enabled_tools values)) refl)
