-- ===== src/Routes.antt =====
-- The table builtInUrls of main/main.c, which the server, libesphttpd, searches.
use bkc_chooser.Base.{Option, none, some, List, [], ◌∷◌, ◌++◌, Bytes, codes}

-- The functions that the table names.
pub data Handler : Type 0 where
  redirect_ap_client_to_hostname redirect reboot_firmware : Handler
  upload_file download_file file_idx delete : Handler
  download_log download_flash esp_fs_hook : Handler

-- HttpdBuiltInUrl.
pub record Url : Type 0 where
  pub url : Bytes
  pub handler : Handler
  pub arg : Option Bytes

abbrev plain : Bytes → Handler → Url
plain u h = record { url = u; handler = h; arg = none }

abbrev redirection : Url
redirection = record {
  url = codes "*";
  handler = redirect_ap_client_to_hostname;
  arg = some (codes "esp8266.nonet");
}

-- The entries between the first and the last.
abbrev pages : List Url
pages =
    record { url = codes "/"; handler = redirect; arg = some (codes "/index.html") }
    ∷ plain (codes "/reboot.cgi") reboot_firmware
    ∷ plain (codes "/upload.cgi") upload_file
    ∷ plain (codes "/download.cgi") download_file
    ∷ plain (codes "/fileidx.cgi") file_idx
    ∷ plain (codes "/delete.cgi") delete
    ∷ plain (codes "/getlog.cgi") download_log
    ∷ plain (codes "/getflash.cgi") download_flash
    ∷ []

unfoldable pub built_in_urls : List Url
built_in_urls = redirection ∷ (pages ++ (plain (codes "*") esp_fs_hook ∷ []))
