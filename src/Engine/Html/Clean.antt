-- ===== src/Engine/Html/Clean.antt =====
-- internal/engine/html.go: what is written, against trees of markup.
use matfix.Shared.{
  ◌≡◌, refl, sym, ap, ◌∙◌, ◌⊎◌, inl, inr, String, Bool, true, false, ◌&&◌, ◌||◌, not, Option, none,
  some, List, [], ◌∷◌, ◌++◌, ◌==◌, if◌then◌else◌, IsIn, All, any_where, Bool-cases, eq_iff,
}
use Prim.Native.String.{◌++◌ as ◌<>◌}
use mathlib.Core.List.{append_assoc, append-nil}
use text.Mathlib.Text.{starts_with}
use text.Mathlib.TextLemmas as TextLemmas
use matfix.Engine.Html.{
  Attribute, Node, Nodes, words, element, other, end, sibling, Html, allowed_elements,
  permitted_attrs, safe_prefixes, has_name, is_safe_url, write_attr, write_if_allowed,
  write_allowed_attrs, end_tag, write_element, sanitize_node, sanitize_nodes, sanitize_parsed,
  sanitize_html,
}

-- A tree of markup that is printed as it is.
mutual
  pub data Markup : Type 0 where
    plain : String → Markup
    tagged : String → List Attribute → Markups → Markup

  pub data Markups : Type 0 where
    done : Markups
    next : Markup → Markups → Markups

abbrev pub join_markups : Markups → Markups → Markups
join_markups done ns = ns
join_markups (next m ms) ns = next m (join_markups ms ns)

module _ (x : Html) where
  abbrev pub print_attrs : List Attribute → String
  print_attrs [] = ""
  print_attrs (a ∷ attrs) =
      (" " <> x.escape a.key <> "=\"" <> x.escape a.val <> "\"") <> print_attrs attrs

  abbrev mutual
    pub print_markup : Markup → String
    print_markup (plain text) = x.escape text
    print_markup (tagged tag attrs inner) =
        "<" <> tag <> print_attrs attrs <> ">" <> print_markups inner <> end_tag x tag

    pub print_markups : Markups → String
    print_markups done = ""
    print_markups (next m ms) = print_markup m <> print_markups ms

  -- The href or src of a link or an image.
  abbrev pub IsLink : String → Type 0
  IsLink key = (key ≡ "href") ⊎ (key ≡ "src")

  abbrev pub IsSafeUrl : String → Type 0
  IsSafeUrl url =
      (prefix : String) × IsIn prefix safe_prefixes
      × (starts_with (x.to_lower (x.trim_space url)) prefix ≡ true)

  abbrev pub IsAllowedAttr : String → Attribute → Type 0
  IsAllowedAttr tag a =
      (starts_with a.key "data-mx-" ≡ true)
      ⊎ (IsIn a.key (permitted_attrs tag) × (IsLink a.key → IsSafeUrl a.val))

  -- Only allowed elements, with allowed attributes.
  abbrev mutual
    pub IsCleanNode : Markup → Type 0
    IsCleanNode (plain text) = Unit
    IsCleanNode (tagged tag attrs inner) =
        IsIn tag allowed_elements × (All (IsAllowedAttr tag) attrs × IsClean inner)

    pub IsClean : Markups → Type 0
    IsClean done = Unit
    IsClean (next m ms) = IsCleanNode m × IsClean ms

-- The texts, in order.
abbrev mutual
  pub texts_of : Node → List String
  texts_of (words text) = text ∷ []
  texts_of (element name attrs children) = texts_in children
  texts_of (other children) = texts_in children

  pub texts_in : Nodes → List String
  texts_in end = []
  texts_in (sibling n ns) = texts_of n ++ texts_in ns

abbrev mutual
  pub markup_texts : Markup → List String
  markup_texts (plain text) = text ∷ []
  markup_texts (tagged tag attrs inner) = markups_texts inner

  pub markups_texts : Markups → List String
  markups_texts done = []
  markups_texts (next m ms) = markup_texts m ++ markups_texts ms

abbrev pub parsed_texts : String → Option Nodes → List String
parsed_texts input none = input ∷ []
parsed_texts input (some end) = input ∷ []
parsed_texts input (some (sibling n ns)) = texts_of n ++ texts_in ns

texts-join : (a b : Markups) → markups_texts (join_markups a b) ≡ markups_texts a ++ markups_texts b
texts-join done b = refl
texts-join (next m ms) b =
    ap (λ l. markup_texts m ++ l) (texts-join ms b)
    ∙ sym (append_assoc (markup_texts m) (markups_texts ms) (markups_texts b))

has_name-IsIn : (name : String) (names : List String) → has_name name names ≡ true → IsIn name names
unfolding has_name any_where
has_name-IsIn name [] h = absurd (cc)
has_name-IsIn name (n ∷ names) h = elim (Bool-cases (n == name)) [
  | inl same ↦ inl (sym ((eq_iff n name).0 same))
  | inr differs ↦ inr (has_name-IsIn name names (rw differs at h))
]

any_where-IsIn :
    (p : String → Bool) (names : List String)
    → any_where p names ≡ true
    → (n : String) × IsIn n names × (p n ≡ true)
unfolding any_where
any_where-IsIn p [] h = absurd (cc)
any_where-IsIn p (n ∷ names) h = elim (Bool-cases (p n)) [
  | inl here ↦ (n, inl refl, here)
  | inr nope ↦
      (let (m, place, holds) = any_where-IsIn p names (rw nope at h) in (m, inr place, holds))
]

All-append :
    (P : Attribute → Type 0) (xs ys : List Attribute) → All P xs → All P ys → All P (xs ++ ys)
All-append P [] ys h k = k
All-append P (x ∷ xs) ys (h, hs) k = (h, All-append P xs ys hs k)

module _ (x : Html) where
  print-join :
      (a b : Markups) → print_markups x (join_markups a b) ≡ print_markups x a <> print_markups x b
  print-join done b = sym (TextLemmas.nil-append (print_markups x b))
  print-join (next m ms) b =
      ap (λ s. print_markup x m <> s) (print-join ms b)
      ∙ sym (TextLemmas.append_assoc (print_markup x m) (print_markups x ms) (print_markups x b))

  IsClean-join : (a b : Markups) → IsClean x a → IsClean x b → IsClean x (join_markups a b)
  IsClean-join done b h k = k
  IsClean-join (next m ms) b (h, hs) k = (h, IsClean-join ms b hs k)

  not-false : (b : Bool) → not b ≡ false → b ≡ true
  not-false true h = refl
  not-false false h = absurd (cc)

  link-safe :
      (key url : String)
      → ((key == "href" || key == "src") && not (is_safe_url x url)) ≡ false
      → IsLink x key
      → is_safe_url x url ≡ true
  link-safe key url h (inl q) = not-false (is_safe_url x url) (rw q at h)
  link-safe key url h (inr q) = not-false (is_safe_url x url) (rw q at h)

  safe-IsSafeUrl : (url : String) → is_safe_url x url ≡ true → IsSafeUrl x url
  unfolding is_safe_url
  safe-IsSafeUrl url h =
      any_where-IsIn (λ prefix. starts_with (x.to_lower (x.trim_space url)) prefix) safe_prefixes h

  -- What an attribute leaves: nothing, or an allowed attribute.
  Leaves : String → String → Type 0
  Leaves tag written =
      (kept : List Attribute) × All (IsAllowedAttr x tag) kept
      × ((rest : List Attribute) → written <> print_attrs x rest ≡ print_attrs x (kept ++ rest))

  drop-Leaves : (tag : String) → Leaves tag ""
  unfolding Leaves
  drop-Leaves tag = ([], tt, λ rest. TextLemmas.nil-append (print_attrs x rest))

  keep-Leaves :
      (tag key val : String)
      → IsAllowedAttr x tag (record { key = key; val = val })
      → Leaves tag (write_attr x key val)
  unfolding Leaves write_attr
  keep-Leaves tag key val h = (record { key = key; val = val } ∷ [], (h, tt), λ rest. refl)

  attr-Leaves : (tag key val : String) → Leaves tag (write_if_allowed x tag key val)
  unfolding write_if_allowed
  attr-Leaves tag key val = elim (Bool-cases (starts_with key "data-mx-")) [
    | inl custom ↦ rw custom (keep-Leaves tag key val (inl custom))
    | inr standard ↦ rw standard (by_name (Bool-cases (has_name key (permitted_attrs tag))))
  ]
    where
      by_name :
          (has_name key (permitted_attrs tag) ≡ true) ⊎ (has_name key (permitted_attrs tag) ≡ false)
          → Leaves tag (
              if not (has_name key (permitted_attrs tag))
              then ""
              else (if (key == "href" || key == "src") && not (is_safe_url x val)
                  then ""
                  else write_attr x key val))
      by_name (inr unknown) = rw unknown (drop-Leaves tag)
      by_name (inl known) =
          rw known (elim (Bool-cases ((key == "href" || key == "src") && not (is_safe_url x val))) [
            | inl unsafe ↦ rw unsafe (drop-Leaves tag)
            | inr fine ↦ rw fine (
                keep-Leaves tag key val (
                  inr (
                    has_name-IsIn key (permitted_attrs tag) known,
                    λ link. safe-IsSafeUrl val (link-safe key val fine link),
                  )))
          ])

  attrs-clean :
      (tag : String) (attrs : List Attribute)
      → (kept : List Attribute) × All (IsAllowedAttr x tag) kept
        × (write_allowed_attrs x tag attrs ≡ print_attrs x kept)
  unfolding write_allowed_attrs Leaves
  attrs-clean tag [] = ([], tt, refl)
  attrs-clean tag (a ∷ attrs) =
      let (kept, allowed, q) = attr-Leaves tag (x.to_lower a.key) a.val in
      let (rest, others, r) = attrs-clean tag attrs in
      (kept ++ rest, All-append (IsAllowedAttr x tag) kept rest allowed others, rw r (q rest))

  -- What a node leaves: the print of a clean tree with the same texts.
  abbrev IsPrintOf : List String → String → Type 0
  IsPrintOf texts written =
      (ms : Markups) × IsClean x ms × (written ≡ print_markups x ms) × (markups_texts ms ≡ texts)

  words-IsPrintOf : (text : String) → IsPrintOf (text ∷ []) (x.escape text)
  words-IsPrintOf text =
      (next (plain text) done, (tt, tt), sym (TextLemmas.append-nil (x.escape text)), refl)

  element-IsPrintOf :
      (tag : String) (attrs : List Attribute) (inner : String) (texts : List String)
      → IsPrintOf texts inner
      → IsPrintOf texts (write_element x tag attrs inner)
  unfolding write_element
  element-IsPrintOf tag attrs inner texts (ms, clean, q, same) =
      elim (Bool-cases (has_name tag allowed_elements)) [
        | inr unknown ↦ rw unknown (ms, clean, q, same)
        | inl known ↦ rw known (
            let (kept, allowed, r) = attrs-clean tag attrs in
            (
              next (tagged tag kept ms) done,
              ((has_name-IsIn tag allowed_elements known, (allowed, clean)), tt),
              rw r (rw q (sym (TextLemmas.append-nil _))),
              append-nil (markups_texts ms) ∙ same,
            ))
      ]

  mutual
    unfolding sanitize_node

    node-IsPrintOf : (n : Node) → IsPrintOf (texts_of n) (sanitize_node x n)
    node-IsPrintOf (words text) = words-IsPrintOf text
    node-IsPrintOf (element name attrs children) =
        element-IsPrintOf (x.to_lower name) attrs (sanitize_nodes x children) (texts_in children)
          (nodes-IsPrintOf children)
    node-IsPrintOf (other children) = nodes-IsPrintOf children

    nodes-IsPrintOf : (ns : Nodes) → IsPrintOf (texts_in ns) (sanitize_nodes x ns)
    nodes-IsPrintOf end = (done, tt, refl, refl)
    nodes-IsPrintOf (sibling n ns) =
        let (a, h, q, s) = node-IsPrintOf n in
        let (b, k, r, t) = nodes-IsPrintOf ns in
        (
          join_markups a b,
          IsClean-join a b h k,
          rw q (rw r (sym (print-join a b))),
          texts-join a b ∙ rw s (rw t refl),
        )

  parsed-IsPrintOf :
      (input : String) (parsed : Option Nodes)
      → IsPrintOf (parsed_texts input parsed) (sanitize_parsed x input parsed)
  unfolding sanitize_parsed
  parsed-IsPrintOf input none = words-IsPrintOf input
  parsed-IsPrintOf input (some end) = words-IsPrintOf input
  parsed-IsPrintOf input (some (sibling n ns)) = nodes-IsPrintOf (sibling n ns)

  -- Whatever the parser makes of the input, what SanitizeHTML returns is the print of a tree in
  -- which each element and each attribute is allowed and each href and src has a safe prefix; its
  -- texts are those that were parsed, in order, or the input itself if that gave no nodes.
  pub sanitize_html-IsPrintOf :
      (input : String)
      → (ms : Markups) × IsClean x ms
        × (sanitize_html x input ≡ print_markups x ms)
        × (markups_texts ms ≡ parsed_texts input (x.parse_fragment input))
  unfolding sanitize_html
  sanitize_html-IsPrintOf input = parsed-IsPrintOf input (x.parse_fragment input)
