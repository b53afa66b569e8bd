-- ===== src/Engine/Html.antt =====
-- internal/engine/html.go: what is left of the HTML of a formatted body. The parser of
-- golang.org/x/net/html, html.EscapeString and the functions of strings are parameters.
pub mod Clean
use matfix.Shared.{
  String, Bool, true, false, ◌&&◌, ◌||◌, not, Option, none, some, List, [], ◌∷◌, ◌==◌,
  if◌then◌else◌, find_where, any_where,
}
use Prim.Native.String.{◌++◌ as ◌<>◌}
use text.Mathlib.Text.{starts_with}

pub record Attribute : Type 0 where
  pub key : String
  pub val : String

-- html.Node by its type; `other` is a comment, a doctype or whatever else.
mutual
  pub data Node : Type 0 where
    words : String → Node
    element : String → List Attribute → Nodes → Node
    other : Nodes → Node

  -- FirstChild and the chain of NextSibling.
  pub data Nodes : Type 0 where
    end : Nodes
    sibling : Node → Nodes → Nodes

-- `none` is an error of html.ParseFragment.
pub record Html : Type 0 where
  pub to_lower : String → String
  pub trim_space : String → String
  pub escape : String → String
  pub parse_fragment : String → Option Nodes

abbrev pub allowed_elements : List String
allowed_elements =
    "font" ∷ "del" ∷ "strike" ∷ "s" ∷ "h1" ∷ "h2" ∷ "h3" ∷ "h4" ∷ "h5" ∷ "h6" ∷ "blockquote" ∷ "p"
    ∷ "a" ∷ "ul" ∷ "ol" ∷ "li" ∷ "sup" ∷ "sub" ∷ "b" ∷ "i" ∷ "u" ∷ "strong" ∷ "em" ∷ "code" ∷ "hr"
    ∷ "br" ∷ "div" ∷ "table" ∷ "thead" ∷ "tbody" ∷ "tr" ∷ "th" ∷ "td" ∷ "caption" ∷ "pre" ∷ "span"
    ∷ "img" ∷ "details" ∷ "summary" ∷ []

abbrev pub allowed_attrs : List (String × List String)
allowed_attrs =
    ("font", "color" ∷ "face" ∷ "data-mx-bg-color" ∷ "data-mx-color" ∷ [])
    ∷ ("span", "data-mx-bg-color" ∷ "data-mx-color" ∷ "data-mx-spoiler" ∷ [])
    ∷ ("a", "name" ∷ "target" ∷ "href" ∷ [])
    ∷ ("img", "width" ∷ "height" ∷ "alt" ∷ "title" ∷ "src" ∷ [])
    ∷ ("ol", "start" ∷ [])
    ∷ ("li", "value" ∷ [])
    ∷ ("code", "class" ∷ [])
    ∷ ("td", "colspan" ∷ "rowspan" ∷ [])
    ∷ ("th", "colspan" ∷ "rowspan" ∷ [])
    ∷ []

abbrev pub void_elements : List String
void_elements = "br" ∷ "hr" ∷ "img" ∷ []

-- Whether a map of texts to true has the key.
unfoldable pub has_name : String → List String → Bool
unfolding any_where
has_name name = any_where (λ n. n == name)

abbrev pub attrs_found : Option (String × List String) → List String
attrs_found none = []
attrs_found (some (tag, names)) = names

-- allowedAttrs[tag], the nil map for a missing tag.
unfoldable pub permitted_attrs : String → List String
unfolding find_where
permitted_attrs tag = attrs_found (find_where (λ (t, names). t == tag) allowed_attrs)

abbrev pub safe_prefixes : List String
safe_prefixes = "https://" ∷ "http://" ∷ "matrix:" ∷ "mailto:" ∷ "mxc://" ∷ "#" ∷ []

module _ (x : Html) where
  unfoldable pub is_safe_url : String → Bool
  unfolding any_where
  is_safe_url u =
      any_where (λ prefix. starts_with (x.to_lower (x.trim_space u)) prefix) safe_prefixes

  -- What writeAttr appends to the builder.
  unfoldable pub write_attr : String → String → String
  write_attr key val = " " <> x.escape key <> "=\"" <> x.escape val <> "\""

  -- One pass of the loop of writeAllowedAttrs.
  unfoldable pub write_if_allowed : String → String → String → String
  unfolding has_name is_safe_url write_attr permitted_attrs
  write_if_allowed tag key val =
      if starts_with key "data-mx-"
      then write_attr key val
      else (if not (has_name key (permitted_attrs tag))
          then ""
          else (if (key == "href" || key == "src") && not (is_safe_url val)
              then ""
              else write_attr key val))

  unfoldable pub write_allowed_attrs : String → List Attribute → String
  unfolding write_if_allowed
  write_allowed_attrs tag [] = ""
  write_allowed_attrs tag (a ∷ attrs) =
      write_if_allowed tag (x.to_lower a.key) a.val <> write_allowed_attrs tag attrs

  unfoldable pub end_tag : String → String
  unfolding has_name
  end_tag tag = if not (has_name tag void_elements) then "</" <> tag <> ">" else ""

  -- The element with what its children write.
  unfoldable pub write_element : String → List Attribute → String → String
  unfolding write_allowed_attrs end_tag has_name
  write_element tag attrs inner =
      if has_name tag allowed_elements
      then "<" <> tag <> write_allowed_attrs tag attrs <> ">" <> inner <> end_tag tag
      else inner

  unfoldable mutual
    unfolding write_element

    pub sanitize_node : Node → String
    sanitize_node (words text) = x.escape text
    sanitize_node (element name attrs children) =
        write_element (x.to_lower name) attrs (sanitize_nodes children)
    sanitize_node (other children) = sanitize_nodes children

    pub sanitize_nodes : Nodes → String
    sanitize_nodes end = ""
    sanitize_nodes (sibling n ns) = sanitize_node n <> sanitize_nodes ns

  sanitize_parsed : String → Option Nodes → String
  unfolding sanitize_nodes
  sanitize_parsed input none = x.escape input
  sanitize_parsed input (some end) = x.escape input
  sanitize_parsed input (some (sibling n ns)) = sanitize_nodes (sibling n ns)

  unfoldable pub sanitize_html : String → String
  unfolding sanitize_parsed
  sanitize_html input = sanitize_parsed input (x.parse_fragment input)
