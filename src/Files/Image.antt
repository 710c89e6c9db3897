-- ===== src/Files/Image.antt =====
-- ProjectFiles/fsdata_custom.c: the records that chain the files, of lwIP's type `fsdata_file`. The
-- name of a file is at the start of its array, and its data `offset` bytes behind.
use pico_rfu.Prelude.{ℕ, List, [], ◌∷◌}
use pico_rfu.Files.FaviconIco.{data_favicon_ico}
use pico_rfu.Files.KeypadJs.{data_keypad_js}
use pico_rfu.Files.IndexHtml.{data_index_html}
use pico_rfu.Files.StylesCss.{data_styles_css}
use pico_rfu.Files.KeypadHtml.{data_keypad_html}
use pico_rfu.Files.LoginJs.{data_login_js}
use pico_rfu.Files.SettingsHtml.{data_settings_html}
use pico_rfu.Files.SettingsJs.{data_settings_js}

-- A file: the one behind it in the chain, its array, and where its data starts.
pub data FsdataFile : Type 0 where
  null : FsdataFile
  file : FsdataFile → List ℕ → ℕ → FsdataFile

unfoldable pub file_favicon_ico : FsdataFile
file_favicon_ico = file null data_favicon_ico 13

unfoldable pub file_keypad_js : FsdataFile
file_keypad_js = file file_favicon_ico data_keypad_js 11

unfoldable pub file_index_html : FsdataFile
file_index_html = file file_keypad_js data_index_html 12

unfoldable pub file_styles_css : FsdataFile
file_styles_css = file file_index_html data_styles_css 12

unfoldable pub file_keypad_html : FsdataFile
file_keypad_html = file file_styles_css data_keypad_html 13

unfoldable pub file_login_js : FsdataFile
file_login_js = file file_keypad_html data_login_js 10

unfoldable pub file_settings_html : FsdataFile
file_settings_html = file file_login_js data_settings_html 15

unfoldable pub file_settings_js : FsdataFile
file_settings_js = file file_settings_html data_settings_js 13

-- FS_ROOT
abbrev pub fs_root : FsdataFile
fs_root = file_settings_js

-- FS_NUMFILES
abbrev pub fs_numfiles : ℕ
fs_numfiles = 8

-- The files of a chain, from its first on.
abbrev pub files : FsdataFile → List (List ℕ × ℕ)
files null = []
files (file next array offset) = (array, offset) ∷ files next
