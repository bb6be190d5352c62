-- ===== src/Page/Load.antt =====
-- getRemoteContent and loadUri.
use cpp_custom.Prelude.{
  Bool, Bytes, List, Option, [], ◌∷◌, ◌++◌, true, false, ◌&&◌, ◌||◌, none, some, ℕ, ◌==◌,
  if◌then◌else◌, codes, length, drop,
}
use cpp_custom.Html.Tree.{Dom}
use cpp_custom.Html.Parser.{parse_html}
use cpp_custom.Browser.Types.{Platform}
use cpp_custom.Browser.Content.{get_file_content, Memory, empty_memory, grow_buffer, c_string}
use cpp_custom.Browser.Fetch.{receive}
use cpp_custom.Page.Types.{Outcome, ◌>>=◌, Document, Engine, done, undefined, out_of_fuel}
use cpp_custom.Page.Store.{flatten}
use cpp_custom.Page.Draw.{or_undefined, draw_root}
use cpp_custom.Page.Script.{from_result}

abbrev starts_with : Bytes → Bytes → Bool
starts_with [] text = true
starts_with (p ∷ ps) [] = false
starts_with (p ∷ ps) (c ∷ cs) = p == c && starts_with ps cs

-- `find(part) != npos`
unfoldable pub contains : Bytes → Bytes → Bool
contains part [] = starts_with part []
contains part (c ∷ cs) = starts_with part (c ∷ cs) || contains part cs

abbrev pub string_of : Option Memory → Outcome Bytes
string_of none = undefined
string_of (some mem) = or_undefined (c_string mem.buf)

-- `none` where curl does not start.
unfoldable pub get_remote_content : (ℕ → Bool) → Option (List Bytes) → Outcome Bytes
unfolding c_string grow_buffer receive
get_remote_content fits none = done []
get_remote_content fits (some chunks) = string_of (receive fits chunks empty_memory)

abbrev pub or_fuel : Option Bytes → Outcome Bytes
or_fuel none = out_of_fuel
or_fuel (some text) = done text

abbrev pub is_empty : Bytes → Bool
is_empty [] = true
is_empty (c ∷ cs) = false

module _ {P : Platform} (E : Engine P) where
  -- `none` for an address of neither kind.
  unfoldable pub content_at : Bytes → Outcome (Option Bytes)
  unfolding contains get_remote_content get_file_content
  content_at uri =
      if contains (codes "file://") uri
      then or_fuel (get_file_content (E.file (drop 7 uri))) >>= (λ t. done (some t))
      else if contains (codes "http") uri
      then get_remote_content E.fits (E.chunks uri) >>= (λ t. done (some t))
      else done none

  -- `rootDOM = parseHtml(htmlContent)` with the tree's elements.
  abbrev pub add_tree : Document P → Option Dom → Document P
  add_tree d none = record d { root = none }
  add_tree d (some t) =
      let n = length d.elements in record d { elements = d.elements ++ flatten n t; root = some n }

  -- readyJSDocument ends without the return of its value, so what it does is the engine's answer.
  abbrev pub with_world : Document P → P.World → Document P
  with_world d w = let g = d.page in record d { page = record g { world = w } }

  abbrev pub ready_document : Document P → Outcome (Document P)
  ready_document d = E.ready d.page.world >>= λ w. done (with_world d w)

  unfoldable pub load_content : Option Bytes → Document P → Outcome (Document P)
  unfolding flatten parse_html draw_root
  load_content none d = done d
  load_content (some html) d = elim (is_empty html) [
    | true ↦ done d
    | false ↦ (do
      t ← from_result (parse_html html)
      d' ← ready_document (add_tree d t)
      draw_root E d')
  ]

  -- loadUri. The map of ids is new whatever follows.
  unfoldable pub load_uri : Bytes → Document P → Outcome (Document P)
  unfolding content_at load_content
  load_uri uri d = content_at uri >>= λ c. load_content c (record d { ids = [] })
