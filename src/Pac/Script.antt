-- ===== src/Pac/Script.antt =====
-- pac.rs: the text of the generated script, `generate_pac`.
use libreatrust.Base.{List, Text, [], codes, ℕ, ◌++◌, ◌∷◌}
use libreatrust.Resource.{ResourceSnapshot}
use libreatrust.Pac.{domain_table, pac_domains, pac_ranges, proxy_line, range_table}

-- The fixed part of the script, line by line.
abbrev script_lines : List Text
script_lines =
    codes "  function ipToNumber(value) {"
    ∷ codes "    var parts = value.split(\".\");"
    ∷ codes "    if (parts.length != 4) return -1;"
    ∷ codes "    var number = 0;"
    ∷ codes "    for (var i = 0; i < 4; i++) {"
    ∷ codes "      if (!/^[0-9]{1,3}$/.test(parts[i])) return -1;"
    ∷ codes "      var octet = parseInt(parts[i], 10);"
    ∷ codes "      if (octet > 255) return -1;"
    ∷ codes "      number = number * 256 + octet;"
    ∷ codes "    }"
    ∷ codes "    return number;"
    ∷ codes "  }"
    ∷ codes "  function inRanges(number) {"
    ∷ codes "    for (var i = 0; i < RANGES.length; i++) {"
    ∷ codes "      if (number >= RANGES[i][0] && number <= RANGES[i][1]) return true;"
    ∷ codes "    }"
    ∷ codes "    return false;"
    ∷ codes "  }"
    ∷ codes "  host = host.toLowerCase();"
    ∷ codes
        "  if (host.charAt(host.length - 1) == \".\") host = host.substring(0, host.length - 1);"
    ∷ codes "  var suffix = host;"
    ∷ codes "  while (true) {"
    ∷ codes "    if (DOMAINS.hasOwnProperty(suffix)) return PROXY;"
    ∷ codes "    var dot = suffix.indexOf(\".\");"
    ∷ codes "    if (dot < 0) break;"
    ∷ codes "    suffix = suffix.substring(dot + 1);"
    ∷ codes "  }"
    ∷ codes "  if (RANGES.length == 0) return \"DIRECT\";"
    ∷ codes "  var number = ipToNumber(host);"
    ∷ codes "  if (number < 0) {"
    ∷ codes "    if (isPlainHostName(host)) return \"DIRECT\";"
    ∷ codes "    var resolved = dnsResolve(host);"
    ∷ codes "    if (!resolved) return \"DIRECT\";"
    ∷ codes "    number = ipToNumber(resolved);"
    ∷ codes "  }"
    ∷ codes "  if (number >= 0 && inRanges(number)) return PROXY;"
    ∷ codes "  return \"DIRECT\";"
    ∷ codes "}"
    ∷ []

abbrev unlines : List Text → Text
unlines [] = []
unlines (line ∷ lines) = line ++ (10 ∷ unlines lines)

-- `generate_pac`, for the text of the proxy's address, with brackets around an IPv6 address.
unfoldable pub generate_pac : (Text → Text) → ResourceSnapshot → Text → ℕ → Text
generate_pac js_string snapshot host port = unlines (
    codes "function FindProxyForURL(url, host) {"
    ∷ (codes "  var PROXY = " ++ (js_string (proxy_line host port) ++ codes ";"))
    ∷ (codes "  var DOMAINS = {" ++ (domain_table js_string (pac_domains snapshot) ++ codes "};"))
    ∷ (codes "  var RANGES = [" ++ (range_table (pac_ranges snapshot) ++ codes "];"))
    ∷ script_lines)
