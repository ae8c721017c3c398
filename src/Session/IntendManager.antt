-- ===== src/Session/IntendManager.antt =====
-- src/session-manager/services/intend-manager/intend-manager.service.ts
pub mod Laws
use nestjs_framework_templat.Prelude.{
  String, Option, none, some, List, [], ◌∷◌, ◌++◌, ◌≡◌, refl, arith, ◌==◌, string_eq, if◌then◌else◌,
  get_elem?,
}
use nestjs_framework_templat.Effect.{M, Result, ok, err, error, or_throw, ◌>>=◌, ◌>>◌, pure, throw}
use nestjs_framework_templat.Session.{Flash, Entry, intend, corrupt, FlashKey, intends}

module _ (φ : Flash) where
  abbrev pub Act : Type 0 → Type 0
  Act A = M φ.Store A

  -- `request.flash(this.intendFlashKey())`
  abbrev pub flash_messages : Act (List Entry)
  flash_messages s = ok (φ.messages intends s) (φ.consume intends s)

  -- `JSON.parse` of a message, or of the `undefined` of an empty list
  abbrev pub parse : Option Entry → Act (Option String)
  parse (some (intend url)) = pure url
  parse (some corrupt) = throw (error "SyntaxError")
  parse none = throw (error "SyntaxError")

  unfoldable pub update_content : Option String → Act (Unit {0})
  update_content url s = ok tt (φ.push intends (intend url) s)

  -- The last message.
  abbrev pub last : List Entry → Option Entry
  last [] = none
  last (e ∷ []) = some e
  last (e ∷ f ∷ es) = last (f ∷ es)

  unfoldable pub setup_intend : Act (Unit {0})
  unfolding update_content
  setup_intend = do
    content ← flash_messages
    elim content [
      | [] ↦ update_content none
      | e ∷ es ↦ do url ← parse (last (e ∷ es)); update_content url
    ]

  -- `try { … } catch { … }`: the state that the attempt reached is kept.
  abbrev pub catch : {A : Type 0} → Act A → Act A → Act A
  catch m handler s = elim (m s) [ ok a t ↦ ok a t | err _ t ↦ handler t ]

  abbrev pub read_first : Act (Option String)
  read_first = do content ← flash_messages; parse (get_elem? content 0)

  unfoldable pub get_intend : Act (Option String)
  unfolding setup_intend update_content
  get_intend = do url ← catch read_first (do setup_intend; read_first); update_content url; pure url

  unfoldable pub set_url : Option String → Act (Unit {0})
  unfolding get_intend update_content
  set_url url = do _ ← get_intend; update_content url

  -- `intend?.url || null`
  abbrev pub or_null : Option String → Option String
  or_null none = none
  or_null (some url) = if url == "" then none else some url

  unfoldable pub get_url : Act (Option String)
  unfolding get_intend
  get_url = do url ← get_intend; pure (or_null url)

  -- What the first message says, or null.
  abbrev pub first_url : φ.Store → Option String
  first_url s = elim (φ.messages intends s) [
    | [] ↦ none
    | e ∷ es ↦ elim e [ intend url ↦ url | corrupt ↦ none ]
  ]
