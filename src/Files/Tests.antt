-- ===== src/Files/Tests.antt =====
-- ProjectFiles/fsdata_custom.c: the chain of files.
use pico_rfu.Prelude.{◌≡◌, refl, some, get_elem?, length}
use pico_rfu.Files.IndexHtml.{data_index_html}
use pico_rfu.Files.Image.{
  file_favicon_ico, file_keypad_js, file_index_html, file_styles_css, file_keypad_html,
  file_login_js, file_settings_html, file_settings_js,
}
use pico_rfu.Files.Image.{files, fs_root, fs_numfiles}

-- The chain has as many files as FS_NUMFILES says.
length-files : length (files fs_root) ≡ fs_numfiles
unfolding file_favicon_ico file_keypad_js file_index_html file_styles_css file_keypad_html
    file_login_js file_settings_html file_settings_js
length-files = refl

sixth : get_elem? (files fs_root) 5 ≡ some (data_index_html, 12)
unfolding file_settings_js file_settings_html file_login_js file_keypad_html file_styles_css
    file_index_html
sixth = refl
