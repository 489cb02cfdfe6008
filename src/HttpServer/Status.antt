-- ===== src/HttpServer/Status.antt =====
-- The texts that src/HttpServer.cpp writes to the standard output: `showStatus` and
-- `debug::print_all_header_fields`. A decimal is written as `std::to_string` writes it.
mod Tests
use uni_serve_libhttp.Common.{
  ℕ, Bool, true, false, List, [], ◌∷◌, ◌++◌, if◌then◌else◌, Str, bytes, empty, length, to_string,
}
use uni_serve_libhttp.HttpServer.Routes.{RouteEntry, Router}
use uni_serve_libhttp.HttpServer.Lifecycle.{HttpServer}

-- Lines, each of them ended by `std::endl`.
unfoldable pub write : List Str → Str
write [] = []
write (s ∷ ss) = s ++ ((10 ∷ []) ++ write ss)

unfoldable pub protocol_lines : HttpServer → List Str
protocol_lines v =
    (bytes "=== "
      ++ ((if v.ssl_enabled then bytes "HTTPS" else bytes "HTTP") ++ bytes " Server Status ==="))
    ∷ (bytes "Protocol: " ++ (if v.ssl_enabled then bytes "HTTPS (SSL/TLS)" else bytes "HTTP"))
    ∷ (bytes "Address: " ++ v.address)
    ∷ (bytes "Port: " ++ to_string v.port)
    ∷ (bytes "Threads: " ++ to_string v.threads)
    ∷ (bytes "Running: " ++ (if v.running then bytes "Yes" else bytes "No"))
    ∷ []

unfoldable pub certificate_lines : HttpServer → List Str
certificate_lines v =
    if v.ssl_enabled
    then (bytes "Certificate: " ++ v.cert_file) ∷ (bytes "Private Key: " ++ v.key_file) ∷ []
    else []

module _ {H : Type 0} where
  -- One of the four loops over a table.
  unfoldable pub route_lines : Str → List (RouteEntry H) → List Str
  route_lines method [] = []
  route_lines method (entry ∷ entries) =
      (bytes "    "
        ++ (method
            ++ (bytes " "
                ++ (entry.path ++ (if entry.is_wildcard then bytes " (wildcard)" else [])))))
      ∷ route_lines method entries

  unfoldable pub table_lines : Str → List (RouteEntry H) → List Str
  unfolding route_lines
  table_lines method entries =
      (bytes "  "
        ++ (method ++ (bytes ": " ++ (to_string (length entries) ++ bytes " handler(s)"))))
      ∷ route_lines method entries

module _ {H M : Type 0} where
  unfoldable pub routes_lines : Router H M → List Str
  unfolding table_lines
  routes_lines t =
      table_lines (bytes "GET") t.get_handlers
      ++ (table_lines (bytes "POST") t.post_handlers
          ++ (table_lines (bytes "PUT") t.put_handlers
              ++ table_lines (bytes "DELETE") t.delete_handlers))

  unfoldable pub show_status : HttpServer → Router H M → Str
  unfolding write protocol_lines certificate_lines routes_lines
  show_status v t =
      let directory = if empty t.static_directory then bytes "Not set" else t.static_directory in
      write (protocol_lines v)
      ++ (write (certificate_lines v)
          ++ (write ((bytes "Static Directory: " ++ directory) ∷ bytes "Registered Routes:" ∷ [])
              ++ (write (routes_lines t)
                  ++ write (
                      (bytes "Middlewares: " ++ to_string (length t.middlewares))
                      ∷ bytes "=========================="
                      ∷ []))))

-- The header fields of a request, in order, by their names and values.
unfoldable pub print_all_header_fields : List (Str × Str) → Str
print_all_header_fields [] = []
print_all_header_fields ((name, value) ∷ fields) =
    bytes "Name: "
    ++ (name ++ (bytes ", Value: " ++ (value ++ ((10 ∷ []) ++ print_all_header_fields fields))))
