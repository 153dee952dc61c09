-- ===== src/Util/Mime.antt =====
-- util/MIME: the type of a file by its extension.
use algiz.Base.{List, [], ◌∷◌, none, some, ◌≡◌, refl}
use algiz.Base.Bytes.{Bytes, codes}
use algiz.Base.Map.{lookup}

abbrev entry : Bytes → Bytes → Bytes × Bytes
entry extension mime = (extension, mime)

unfoldable pub mime_types : List (Bytes × Bytes)
mime_types =
    entry (codes ".aac") (codes "audio/aac")
    ∷ entry (codes ".abw") (codes "application/x-abiword")
    ∷ entry (codes ".arc") (codes "application/x-freearc")
    ∷ entry (codes ".avif") (codes "image/avif")
    ∷ entry (codes ".avi") (codes "video/x-msvideo")
    ∷ entry (codes ".azw") (codes "application/vnd.amazon.ebook")
    ∷ entry (codes ".bin") (codes "application/octet-stream")
    ∷ entry (codes ".bmp") (codes "image/bmp")
    ∷ entry (codes ".bz") (codes "application/x-bzip")
    ∷ entry (codes ".bz2") (codes "application/x-bzip2")
    ∷ entry (codes ".cda") (codes "application/x-cdf")
    ∷ entry (codes ".csh") (codes "application/x-csh")
    ∷ entry (codes ".css") (codes "text/css")
    ∷ entry (codes ".csv") (codes "text/csv")
    ∷ entry (codes ".doc") (codes "application/msword")
    ∷ entry (codes ".docx")
        (codes "application/vnd.openxmlformats-officedocument.wordprocessingml.document")
    ∷ entry (codes ".dll") (codes "application/x-dosexec")
    ∷ entry (codes ".dylib") (codes "application/x-mach-binary")
    ∷ entry (codes ".eot") (codes "application/vnd.ms-fontobject")
    ∷ entry (codes ".exe") (codes "application/vnd.microsoft.portable-executable")
    ∷ entry (codes ".epub") (codes "application/epub+zip")
    ∷ entry (codes ".gz") (codes "application/gzip")
    ∷ entry (codes ".gif") (codes "image/gif")
    ∷ entry (codes ".html") (codes "text/html")
    ∷ entry (codes ".htm") (codes "text/html")
    ∷ entry (codes ".ico") (codes "image/vnd.microsoft.icon")
    ∷ entry (codes ".ics") (codes "text/calendar")
    ∷ entry (codes ".jar") (codes "application/java-archive")
    ∷ entry (codes ".jpeg") (codes "image/jpeg")
    ∷ entry (codes ".jpg") (codes "image/jpeg")
    ∷ entry (codes ".js") (codes "text/javascript")
    ∷ entry (codes ".json") (codes "application/json")
    ∷ entry (codes ".jsonld") (codes "application/ld+json")
    ∷ entry (codes ".midi") (codes "audio/midi audio/x-midi")
    ∷ entry (codes ".mid") (codes "audio/midi audio/x-midi")
    ∷ entry (codes ".mjs") (codes "text/javascript")
    ∷ entry (codes ".mp3") (codes "audio/mpeg")
    ∷ entry (codes ".mp4") (codes "video/mp4")
    ∷ entry (codes ".mpeg") (codes "video/mpeg")
    ∷ entry (codes ".mpkg") (codes "application/vnd.apple.installer+xml")
    ∷ entry (codes ".odp") (codes "application/vnd.oasis.opendocument.presentation")
    ∷ entry (codes ".ods") (codes "application/vnd.oasis.opendocument.spreadsheet")
    ∷ entry (codes ".odt") (codes "application/vnd.oasis.opendocument.text")
    ∷ entry (codes ".oga") (codes "audio/ogg")
    ∷ entry (codes ".ogv") (codes "video/ogg")
    ∷ entry (codes ".ogx") (codes "application/ogg")
    ∷ entry (codes ".opus") (codes "audio/opus")
    ∷ entry (codes ".otf") (codes "font/otf")
    ∷ entry (codes ".png") (codes "image/png")
    ∷ entry (codes ".pdf") (codes "application/pdf")
    ∷ entry (codes ".php") (codes "application/x-httpd-php")
    ∷ entry (codes ".ppt") (codes "application/vnd.ms-powerpoint")
    ∷ entry (codes ".pptx")
        (codes "application/vnd.openxmlformats-officedocument.presentationml.presentation")
    ∷ entry (codes ".rar") (codes "application/vnd.rar")
    ∷ entry (codes ".rtf") (codes "application/rtf")
    ∷ entry (codes ".sh") (codes "application/x-sh")
    ∷ entry (codes ".so") (codes "application/x-sharedlib")
    ∷ entry (codes ".svg") (codes "image/svg+xml")
    ∷ entry (codes ".swf") (codes "application/x-shockwave-flash")
    ∷ entry (codes ".tar") (codes "application/x-tar")
    ∷ entry (codes ".tif") (codes "image/tiff")
    ∷ entry (codes ".tiff") (codes "image/tiff")
    ∷ entry (codes ".ts") (codes "application/typescript")
    ∷ entry (codes ".ttf") (codes "font/ttf")
    ∷ entry (codes ".txt") (codes "text/plain")
    ∷ entry (codes ".vsd") (codes "application/vnd.visio")
    ∷ entry (codes ".wav") (codes "audio/wav")
    ∷ entry (codes ".weba") (codes "audio/webm")
    ∷ entry (codes ".webm") (codes "video/webm")
    ∷ entry (codes ".webp") (codes "image/webp")
    ∷ entry (codes ".woff") (codes "font/woff")
    ∷ entry (codes ".woff2") (codes "font/woff2")
    ∷ entry (codes ".xhtml") (codes "application/xhtml+xml")
    ∷ entry (codes ".xls") (codes "application/vnd.ms-excel")
    ∷ entry (codes ".xlsx")
        (codes "application/vnd.openxmlformats-officedocument.spreadsheetml.sheet")
    ∷ entry (codes ".xml") (codes "application/xml")
    ∷ entry (codes ".xul") (codes "application/vnd.mozilla.xul+xml")
    ∷ entry (codes ".zip") (codes "application/zip")
    ∷ entry (codes ".3gp") (codes "video/3gpp")
    ∷ entry (codes ".3g2") (codes "video/3gpp2")
    ∷ entry (codes ".7z") (codes "application/x-7z-compressed")
    ∷ []

unfoldable pub get_mime : Bytes → Bytes
get_mime [] = codes "text/plain"
get_mime (c ∷ extension) = elim (lookup (c ∷ extension) mime_types) [
  | none ↦ codes "application/octet-stream"
  | some mime ↦ mime
]

html_type : get_mime (codes ".html") ≡ codes "text/html"
unfolding get_mime mime_types lookup
html_type = refl
