-- ===== src/Api/Networks.antt =====
-- ValidateNetworkAttachments (api/v1alpha1/network_attachments.go).
pub mod Accepted
use Prim.Native.Char.{code}
use Prim.Native.String.{len}
use yanet_operator.Base.{
  ℕ, Bool, true, false, not, ◌||◌, ◌&&◌, Option, none, some, List, [], ◌∷◌, String, ◌<>◌,
  starts_with, ◌==◌, contains, if◌then◌else◌, nat_eq, string_eq, int_eq, option_eq, ltb, leb, ok,
  ◌>>=◌, ◌>>◌, fail_if,
}
use yanet_operator.Base.Dict.{Dict, lookup, insert}
use yanet_operator.Api.Errors.{Check, Error}
use yanet_operator.Api.Names.{NameRules}
use yanet_operator.Api.Types.{NetworkAttachment}

abbrev between : ℕ → ℕ → ℕ → Bool
between lo hi c = leb lo c && leb c hi

-- The class [a-zA-Z0-9_.-].
abbrev is_interface_char : ℕ → Bool
is_interface_char c =
    between b'a' b'z' c
    || between b'A' b'Z' c
    || between b'0' b'9' c
    || c == 95
    || c == 46
    || c == 45

abbrev all_interface_chars : String → Bool
all_interface_chars String.[] = true
all_interface_chars (String.◌∷◌ c s) = is_interface_char (code c) && all_interface_chars s

-- The regular expression networkInterfaceName.
unfoldable pub network_interface_name : String → Bool
network_interface_name s = not (s == "") && all_interface_chars s

-- strings.Cut(s, "/"): the text before the slash, and whether there is one.
unfoldable pub cut_slash : String → String × Bool
cut_slash String.[] = ("", false)
cut_slash (String.◌∷◌ c s) =
    let (before, found) = cut_slash s in
    if code c == 47 then ("", true) else (String.◌∷◌ c before, found)

-- strings.HasSuffix
unfoldable pub ends_with : String → String → Bool
ends_with String.[] t = "" == t
ends_with (String.◌∷◌ c s) t = String.◌∷◌ c s == t || ends_with s t

abbrev interface_refused : String → Bool
interface_refused i =
    ltb 15 (len i)
    || not (network_interface_name i)
    || i == "."
    || i == ".."
    || i == "lo"
    || i == "eth0"

module _ (rules : NameRules) where
  abbrev resource_refused : String → Bool
  resource_refused r =
      not (rules.is_qualified_name r)
      || not (cut_slash r).1
      || (cut_slash r).0 == "kubernetes.io"
      || ends_with (cut_slash r).0 ".kubernetes.io"
      || starts_with r "requests."

  -- The checks of one attachment by itself, those before and those after its interface is recorded.
  unfoldable pub names_refused : NetworkAttachment → Bool
  unfolding network_interface_name
  names_refused n =
      not (rules.is_dns1123_subdomain n.name)
      || (not (n.namespace == "") && not (rules.is_dns1123_label n.namespace))
      || interface_refused n.interface

  unfoldable pub resource_name_refused : NetworkAttachment → Bool
  unfolding cut_slash ends_with
  resource_name_refused n = resource_refused n.resource_name

  abbrev pub identity : NetworkAttachment → String
  identity n = n.namespace <> ("/" <> n.name)

  -- The resource recorded for a NAD differs.
  abbrev pub conflicts : Option String → String → Bool
  conflicts none r = false
  conflicts (some recorded) r = not (recorded == r)

  -- The loop, with the interfaces seen and the resource of each NAD.
  unfoldable pub attachments_loop :
      List String → Dict String String → List NetworkAttachment → Check
  unfolding names_refused resource_name_refused insert
  attachments_loop interfaces nads [] = ok tt
  attachments_loop interfaces nads (n ∷ ns) =
      fail_if (names_refused n) (Error.network_refused n.name)
      >> (fail_if (contains interfaces n.interface) (Error.network_refused n.interface)
          >> (fail_if (resource_name_refused n) (Error.network_refused n.resource_name)
              >> (fail_if (conflicts (lookup (identity n) nads) n.resource_name)
                    (Error.network_refused (identity n))
                  >> attachments_loop (n.interface ∷ interfaces)
                      (insert (identity n) n.resource_name nads) ns)))

  unfoldable pub validate_network_attachments : List NetworkAttachment → Check
  unfolding attachments_loop
  validate_network_attachments networks = attachments_loop [] [] networks
