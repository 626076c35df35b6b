-- ===== src/Xml.antt =====
-- The parsed XML elements (QDomElement) as the library reads them: a tag name, a namespace, the
-- attributes and the child elements. Character data and other nodes are left out.
use qxmpp.Common.{
  Bool, ◌&&◌, ◌||◌, List, [], ◌∷◌, Text, is_empty, text_eq, if◌then◌else◌, Option, none, some,
}

mutual
  pub data Element : Type 0 where
    element : Text → Text → List (Text × Text) → Elements → Element

  pub data Elements : Type 0 where
    nil : Elements
    cons : Element → Elements → Elements

unfoldable pub tag_name : Element → Text
tag_name (element tag ns attributes children) = tag

unfoldable pub namespace_uri : Element → Text
namespace_uri (element tag ns attributes children) = ns

-- A missing attribute reads as the empty text.
unfoldable pub find_attribute : List (Text × Text) → Text → Text
find_attribute [] name = []
find_attribute ((k, v) ∷ rest) name = if text_eq k name then v else find_attribute rest name

unfoldable pub attribute : Element → Text → Text
unfolding find_attribute
attribute (element tag ns attributes children) name = find_attribute attributes name

-- `isElement<T>(el)`: the tag name and the namespace are those of `T::XmlTag`.
unfoldable pub is_element : Text → Text → Element → Bool
unfolding tag_name namespace_uri
is_element tag ns el = text_eq (tag_name el) tag && text_eq (namespace_uri el) ns

-- `firstChildElement(el, tagName, xmlNs)`: an empty name or namespace fits every child.
unfoldable pub first_of_children : Elements → Text → Text → Option Element
unfolding tag_name namespace_uri
first_of_children nil name ns = none
first_of_children (cons el rest) name ns =
    if (is_empty ns || text_eq (namespace_uri el) ns)
      && (is_empty name || text_eq (tag_name el) name)
    then some el
    else first_of_children rest name ns

unfoldable pub first_child_element : Element → Text → Text → Option Element
unfolding first_of_children
first_child_element (element tag ns attributes children) name xmlns =
    first_of_children children name xmlns
