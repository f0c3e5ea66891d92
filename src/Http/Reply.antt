-- ===== src/Http/Reply.antt =====
-- httpd/reply.hpp and httpd/reply.cpp: a reply, and the bytes that are sent for it.
pub mod Framing
use bnc.Prelude.{ℕ, List, [], ◌∷◌, ◌++◌, length, if◌then◌else◌, Bool}
use bnc.Prelude.Bytes.{Bytes, codes, to_string}
use bnc.Http.Request.{Header}

pub data Status : Type 0 where
  ok created accepted no_content : Status
  multiple_choices moved_permanently moved_temporarily not_modified : Status
  bad_request unauthorized forbidden not_found : Status
  internal_server_error not_implemented bad_gateway service_unavailable : Status

-- The numbers of the enumeration.
unfoldable pub status_code : Status → ℕ
status_code ok = 200
status_code created = 201
status_code accepted = 202
status_code no_content = 204
status_code multiple_choices = 300
status_code moved_permanently = 301
status_code moved_temporarily = 302
status_code not_modified = 304
status_code bad_request = 400
status_code unauthorized = 401
status_code forbidden = 403
status_code not_found = 404
status_code internal_server_error = 500
status_code not_implemented = 501
status_code bad_gateway = 502
status_code service_unavailable = 503

pub record Reply : Type 0 where
  pub status : Status
  pub headers : List Header
  pub content : Bytes

-- `status_strings::to_buffer`
unfoldable pub to_buffer : Status → Bytes
to_buffer ok = codes "HTTP/1.1 200 OK\r\n"
to_buffer created = codes "HTTP/1.1 201 Created\r\n"
to_buffer accepted = codes "HTTP/1.1 202 Accepted\r\n"
to_buffer no_content = codes "HTTP/1.1 204 No Content\r\n"
to_buffer multiple_choices = codes "HTTP/1.1 300 Multiple Choices\r\n"
to_buffer moved_permanently = codes "HTTP/1.1 301 Moved Permanently\r\n"
to_buffer moved_temporarily = codes "HTTP/1.1 302 Moved Temporarily\r\n"
to_buffer not_modified = codes "HTTP/1.1 304 Not Modified\r\n"
to_buffer bad_request = codes "HTTP/1.1 400 Bad Request\r\n"
to_buffer unauthorized = codes "HTTP/1.1 401 Unauthorized\r\n"
to_buffer forbidden = codes "HTTP/1.1 403 Forbidden\r\n"
to_buffer not_found = codes "HTTP/1.1 404 Not Found\r\n"
to_buffer internal_server_error = codes "HTTP/1.1 500 Internal Server Error\r\n"
to_buffer not_implemented = codes "HTTP/1.1 501 Not Implemented\r\n"
to_buffer bad_gateway = codes "HTTP/1.1 502 Bad Gateway\r\n"
to_buffer service_unavailable = codes "HTTP/1.1 503 Service Unavailable\r\n"

abbrev pub crlf : Bytes
crlf = b'\r' ∷ b'\n' ∷ []

abbrev name_value_separator : Bytes
name_value_separator = b':' ∷ b' ' ∷ []

-- The four buffers of each header.
unfoldable pub header_buffers : List Header → List Bytes
header_buffers [] = []
header_buffers (h ∷ hs) = h.name ∷ name_value_separator ∷ h.value ∷ crlf ∷ header_buffers hs

unfoldable pub to_buffers : Reply → List Bytes
unfolding header_buffers to_buffer
to_buffers r = to_buffer r.status ∷ (header_buffers r.headers ++ (crlf ∷ r.content ∷ []))

unfoldable pub to_sse_buffers : Reply → Bool → List Bytes
unfolding header_buffers to_buffer
to_sse_buffers r add_status =
    (if add_status then to_buffer r.status ∷ [] else [])
    ++ (header_buffers r.headers ++ (crlf ∷ []))

-- `stock_replies::to_string`
unfoldable pub stock_content : Status → Bytes
stock_content ok = codes ""
stock_content created =
    codes "<html><head><title>Created</title></head><body><h1>201 Created</h1></body></html>"
stock_content accepted =
    codes "<html><head><title>Accepted</title></head><body><h1>202 Accepted</h1></body></html>"
stock_content no_content =
    codes "<html><head><title>No Content</title></head><body><h1>204 Content</h1></body></html>"
stock_content multiple_choices =
    codes
      "<html><head><title>Multiple Choices</title></head><body><h1>300 Multiple Choices</h1></body></html>"
stock_content moved_permanently =
    codes
      "<html><head><title>Moved Permanently</title></head><body><h1>301 Moved Permanently</h1></body></html>"
stock_content moved_temporarily =
    codes
      "<html><head><title>Moved Temporarily</title></head><body><h1>302 Moved Temporarily</h1></body></html>"
stock_content not_modified =
    codes
      "<html><head><title>Not Modified</title></head><body><h1>304 Not Modified</h1></body></html>"
stock_content bad_request =
    codes
      "<html><head><title>Bad Request</title></head><body><h1>400 Bad Request</h1></body></html>"
stock_content unauthorized =
    codes
      "<html><head><title>Unauthorized</title></head><body><h1>401 Unauthorized</h1></body></html>"
stock_content forbidden =
    codes "<html><head><title>Forbidden</title></head><body><h1>403 Forbidden</h1></body></html>"
stock_content not_found =
    codes "<html><head><title>Not Found</title></head><body><h1>404 Not Found</h1></body></html>"
stock_content internal_server_error =
    codes
      "<html><head><title>Internal Server Error</title></head><body><h1>500 Internal Server Error</h1></body></html>"
stock_content not_implemented =
    codes
      "<html><head><title>Not Implemented</title></head><body><h1>501 Not Implemented</h1></body></html>"
stock_content bad_gateway =
    codes
      "<html><head><title>Bad Gateway</title></head><body><h1>502 Bad Gateway</h1></body></html>"
stock_content service_unavailable =
    codes
      "<html><head><title>Service Unavailable</title></head><body><h1>503 Service Unavailable</h1></body></html>"

unfoldable pub stock_reply : Status → Reply
unfolding stock_content
stock_reply s = record {
  status = s;
  headers =
      (record { name = codes "Content-Length"; value = to_string (length (stock_content s)) })
      ∷ (record { name = codes "Content-Type"; value = codes "text/html" })
      ∷ [];
  content = stock_content s;
}

-- What `async_write` sends for a sequence of buffers.
abbrev pub flatten : List Bytes → Bytes
flatten [] = []
flatten (b ∷ bs) = b ++ flatten bs
