-- ===== src/Http/Mime.antt =====
-- httpd/mime_types.cpp.
use bnc.Prelude.{List, [], ◌∷◌, if◌then◌else◌}
use bnc.Prelude.Bytes.{Bytes, codes, equal}

abbrev pub mappings : List (Bytes × Bytes)
mappings =
    (codes "gif", codes "image/gif")
    ∷ (codes "htm", codes "text/html")
    ∷ (codes "html", codes "text/html")
    ∷ (codes "jpg", codes "image/jpeg")
    ∷ (codes "png", codes "image/png")
    ∷ (codes "css", codes "text/css")
    ∷ (codes "js", codes "text/javascript")
    ∷ []

-- The loop over the table: the first mapping with this extension.
unfoldable pub find_mapping : List (Bytes × Bytes) → Bytes → Bytes
find_mapping [] extension = codes "text/plain"
find_mapping ((e, t) ∷ ms) extension = if equal e extension then t else find_mapping ms extension

unfoldable pub extension_to_type : Bytes → Bytes
unfolding find_mapping equal
extension_to_type extension = find_mapping mappings extension
