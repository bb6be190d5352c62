-- ===== src/Libuv/Offer.antt =====
-- The fields of the message that asks for an address, and the address that an answer offers.
use cpp_custom.Prelude.{
  Bool, Bytes, List, Option, [], ◌∷◌, ◌++◌, true, false, none, some, ℕ, zero, suc, ◌+◌, ◌*◌, ◌%◌,
  ◌^◌, ◌≤◌, ◌<◌, ◌≡◌, refl, ap, arith, ◌==◌, if◌then◌else◌, length, get_elem?, take, drop,
}
use cpp_custom.Libuv.Dhcp.{
  make_discover_msg, byte_of, offered_ip, word_at, on_read, printed, undefined,
}

module _ (p q r s : ℕ) (hp : p < 256) (hq : q < 256) (hr : r < 256) (hs : s < 256) where
  abbrev word : ℕ
  word = p + q * 2 ^ 8 + r * 2 ^ 16 + s * 2 ^ 24

  byte_0 : byte_of word 1 ≡ p
  byte_0 = omega arith

  byte_1 : byte_of word (2 ^ 8) ≡ q
  byte_1 = omega arith

  byte_2 : byte_of word (2 ^ 16) ≡ r
  byte_2 = omega arith

  byte_3 : byte_of word (2 ^ 24) ≡ s
  byte_3 = omega arith

offered_ip-word :
    (little : Bool) (a b c d : ℕ)
    → a < 256
    → b < 256
    → c < 256
    → d < 256
    → offered_ip little (a, b, c, d) ≡ a ∷ b ∷ c ∷ d ∷ []
unfolding offered_ip
offered_ip-word true a b c d ha hb hc hd =
    rw
      (
        byte_0 a b c d ha hb hc hd,
        byte_1 a b c d ha hb hc hd,
        byte_2 a b c d ha hb hc hd,
        byte_3 a b c d ha hb hc hd,
        byte_0 d c b a hd hc hb ha,
        byte_1 d c b a hd hc hb ha,
        byte_2 d c b a hd hc hb ha,
        byte_3 d c b a hd hc hb ha,
      )
      refl
offered_ip-word false a b c d ha hb hc hd =
    rw
      (
        byte_0 d c b a hd hc hb ha,
        byte_1 d c b a hd hc hb ha,
        byte_2 d c b a hd hc hb ha,
        byte_3 d c b a hd hc hb ha,
      )
      refl

get_elem-behind :
    (front rest : Bytes) (i m : ℕ)
    → m ≡ length front + i
    → get_elem? (front ++ rest) m ≡ get_elem? rest i
get_elem-behind [] rest i m e = let same : m ≡ i = omega arith in ap (get_elem? rest) same
get_elem-behind (x ∷ xs) rest i zero e = absurd (omega arith)
get_elem-behind (x ∷ xs) rest i (suc m) e = get_elem-behind xs rest i m (omega arith)

get_elem-short : (xs : Bytes) (i : ℕ) → length xs ≤ i → get_elem? xs i ≡ none
get_elem-short [] i le = refl
get_elem-short (x ∷ xs) zero le = absurd (omega arith)
get_elem-short (x ∷ xs) (suc i) le = get_elem-short xs i (omega arith)

word_at-none : (p q r : Option ℕ) → word_at p q r none ≡ none
word_at-none none q r = refl
word_at-none (some p) none r = refl
word_at-none (some p) (some q) none = refl
word_at-none (some p) (some q) (some r) = refl

-- Whatever the order of the bytes in the machine's words, on_read prints the bytes 16 to 19 of an
-- answer, which are the field for the client's own address, in their order; it does so for every
-- answer that has them, whatever kind of message it is. Of an answer of fewer than 20 bytes, also
-- of one without any, it reads bytes that were not received.
pub on_read-yiaddr :
    (little : Bool) (front rest : Bytes) (a b c d : ℕ)
    → length front ≡ 16
    → a < 256
    → b < 256
    → c < 256
    → d < 256
    → (on_read little (some (front ++ (a ∷ b ∷ c ∷ d ∷ rest))) ≡ printed (a ∷ b ∷ c ∷ d ∷ []))
      × ((short : Bytes) → length short < 20 → on_read little (some short) ≡ undefined)
unfolding on_read
on_read-yiaddr little front rest a b c d sixteen ha hb hc hd = (
  rw
      (
        get_elem-behind front (a ∷ b ∷ c ∷ d ∷ rest) 0 16 (omega arith),
        get_elem-behind front (a ∷ b ∷ c ∷ d ∷ rest) 1 17 (omega arith),
        get_elem-behind front (a ∷ b ∷ c ∷ d ∷ rest) 2 18 (omega arith),
        get_elem-behind front (a ∷ b ∷ c ∷ d ∷ rest) 3 19 (omega arith),
      )
      (ap printed (offered_ip-word little a b c d ha hb hc hd)),
  λ short lt.
      rw
        (
          get_elem-short short 19 (omega arith),
          word_at-none (get_elem? short 16) (get_elem? short 17) (get_elem? short 18),
        )
        refl,
)

-- The options behind the cookie: 0 pads, 255 ends, and any other byte is followed by a length and so
-- many bytes. `none` where they end without 255.
abbrev pub more_options : ℕ → Bytes → Option (List (ℕ × Bytes)) → Option (List (ℕ × Bytes))
more_options code body none = none
more_options code body (some os) = some ((code, body) ∷ os)

unfoldable pub options : ℕ → Bytes → Option (List (ℕ × Bytes))
options zero msg = none
options (suc f) [] = none
options (suc f) (c ∷ []) = if c == 255 then some [] else none
options (suc f) (c ∷ n ∷ msg) =
    let padded = options f (n ∷ msg) in
    let later = options f (drop n msg) in
    if c == 0 then padded else if c == 255 then some [] else more_options c (take n msg) later

-- Whatever random() gives, the message has 256 bytes: a request over ethernet with an address of six
-- bytes, a number of the exchange whose last three bytes are 0, the flag for a broadcast, the cookie,
-- and the two options with what is asked for; the options are not ended.
pub make_discover_msg-fields :
    (random : ℕ)
    → let msg = make_discover_msg random in
      (length msg ≡ 256)
      × (take 12 msg ≡ 1 ∷ 1 ∷ 6 ∷ 0 ∷ random % 256 ∷ 0 ∷ 0 ∷ 0 ∷ 0 ∷ 0 ∷ 128 ∷ 0 ∷ [])
      × (take 4 (drop 236 msg) ≡ 99 ∷ 130 ∷ 83 ∷ 99 ∷ [])
      × (take 9 (drop 240 msg) ≡ 53 ∷ 1 ∷ 1 ∷ 55 ∷ 4 ∷ 1 ∷ 3 ∷ 15 ∷ 6 ∷ [])
      × (options 256 (drop 240 msg) ≡ none)
unfolding make_discover_msg options
make_discover_msg-fields random = (refl, refl, refl, refl, refl)
