-- ===== src/Gpu/Devices.antt =====
-- How many devices src/gpu.rs reports.
use tex_attestation_server.Prelude.{
  ℕ, ◌+◌, ◌≡◌, refl, sym, ap, ◌∙◌, Option, none, some, List, [], ◌∷◌, arith, length, length-append,
  if◌then◌else◌, inl, inr, Bool-cases, Option-cases,
}
use tex_attestation_server.Text.{Text, lit, equal}
use tex_attestation_server.Text.Trim.{trim}
use tex_attestation_server.Text.Search.{ends_with, strip_prefix, split_once, lines}
use tex_attestation_server.Gpu.{
  Parser, GpuDevice, or_default, start, flushed, device_header, chain_header, known_field,
  key_value, parse_line, parse_lines, finish, parse_gpu_attestation,
}

-- 1 for a device header, 0 for another line.
pub headers_in : Text → ℕ
headers_in line =
    if equal (trim line) []
    then 0
    else elim (strip_prefix (trim line) (lit "- Device ")) [ none ↦ 0 | some _ ↦ 1 ]

pub count_headers : List Text → ℕ
unfolding headers_in
count_headers [] = 0
count_headers (line ∷ rest) = headers_in line + count_headers rest

-- The devices seen so far, with the one that is being read.
abbrev seen : Parser → ℕ
seen p = length (flushed p.devices p.current)

some-size :
    (ds : List GpuDevice) (a b : GpuDevice)
    → length (flushed ds (some a)) ≡ length (flushed ds (some b))
some-size ds a b = length-append ds (a ∷ []) ∙ sym (length-append ds (b ∷ []))

chain-size :
    (ds : List GpuDevice) (current : Option GpuDevice) (f : GpuDevice → GpuDevice)
    → length (flushed ds (elim current [ none ↦ none | some device ↦ some (f device) ]))
      ≡ length (flushed ds current)
chain-size ds none f = refl
chain-size ds (some a) f = some-size ds (f a) a

chain_header-seen : (p : Parser) (key : Text) → seen (chain_header p key) ≡ seen p
unfolding chain_header
chain_header-seen p key =
    chain-size p.devices p.current
      λ device. record device { cert_chains = or_default key device.cert_chains }

-- A field is known only where there is a device.
known_field-current :
    (p : Parser) (key value : Text) (d : GpuDevice)
    → known_field p key value ≡ some d
    → (a : GpuDevice) × (p.current ≡ some a)
unfolding known_field
known_field-current p key value d h = elim (Option-cases p.current) [
  | inl nothing ↦ absurd (cc (rw nothing at h))
  | inr found ↦ found
]

key_value-seen :
    (p : Parser) (trimmed key value : Text) → seen (key_value p trimmed key value) ≡ seen p
unfolding key_value
key_value-seen p trimmed key value = elim (Bool-cases (ends_with key (lit "Cert Chain"))) [
  | inl chain ↦ rw chain (chain_header-seen p key)
  | inr field ↦ elim (Option-cases (known_field p key value)) [
    | inl nothing ↦ rw field rw nothing refl
    | inr (d, known) ↦
        let (a, current) = known_field-current p key value d known in
        rw field rw known
          (some-size p.devices d a ∙ ap (λ o. length (flushed p.devices o)) (sym current))
  ]
]

device_header-seen : (p : Parser) (rest : Text) → seen (device_header p rest) ≡ 1 + seen p
unfolding device_header
device_header-seen p rest = omega (arith, length-append (flushed p.devices p.current) (_ ∷ []))

parse_line-seen : (p : Parser) (line : Text) → seen (parse_line p line) ≡ headers_in line + seen p
unfolding parse_line headers_in
parse_line-seen p line = elim (Bool-cases (equal (trim line) [])) [
  | inl blank ↦ rw blank (omega arith)
  | inr text ↦ elim (Option-cases (strip_prefix (trim line) (lit "- Device "))) [
    | inr (rest, header) ↦ rw text rw header (device_header-seen p rest)
    | inl no_header ↦ elim (Option-cases (split_once b':' (trim line))) [
      | inl no_colon ↦ rw text rw no_header rw no_colon (omega arith)
      | inr ((key, value), colon) ↦
          rw text rw no_header rw colon
            (omega (arith, key_value-seen p (trim line) (trim key) (trim value)))
    ]
  ]
]

parse_lines-seen :
    (p : Parser) (text : List Text) → seen (parse_lines p text) ≡ count_headers text + seen p
unfolding parse_lines count_headers
parse_lines-seen p [] = omega arith
parse_lines-seen p (line ∷ rest) =
    omega (arith, parse_lines-seen (parse_line p line) rest, parse_line-seen p line)

-- The attestation lists exactly one device for each line that opens with `- Device `, the last one
-- included; no other line adds or drops a device.
pub parse_gpu_attestation-devices :
    (text : Text) → length (parse_gpu_attestation text).devices ≡ count_headers (lines text)
unfolding parse_gpu_attestation finish
parse_gpu_attestation-devices text = omega (arith, parse_lines-seen start (lines text))
