-- ===== src/Currency/Enumerators.antt =====
-- Currency.h, `enum CurrencySymbols`: the identifiers in their order, without the last, INVALID.
use zero_reserve.Base.{Text, codes, List, [], ◌∷◌}

-- with ZR_TESTNET
abbrev pub testnet_enumerators : List Text
testnet_enumerators = codes "FAU" ∷ codes "GPM" ∷ codes "TBC" ∷ codes "ZWD" ∷ []

-- without it
abbrev pub main_enumerators : List Text
main_enumerators =
    codes "AED"
    ∷ codes "AFN"
    ∷ codes "ALL"
    ∷ codes "AMD"
    ∷ codes "ANG"
    ∷ codes "AOA"
    ∷ codes "ARS"
    ∷ codes "AUD"
    ∷ codes "AWG"
    ∷ codes "AZN"
    ∷ codes "BAM"
    ∷ codes "BBD"
    ∷ codes "BDT"
    ∷ codes "BGN"
    ∷ codes "BHD"
    ∷ codes "BIF"
    ∷ codes "BMD"
    ∷ codes "BND"
    ∷ codes "BOB"
    ∷ codes "BRL"
    ∷ codes "BSD"
    ∷ codes "BTC"
    ∷ codes "BTN"
    ∷ codes "BWP"
    ∷ codes "BYR"
    ∷ codes "BZD"
    ∷ codes "CAD"
    ∷ codes "CDF"
    ∷ codes "CHF"
    ∷ codes "CLP"
    ∷ codes "CNY"
    ∷ codes "COP"
    ∷ codes "CRC"
    ∷ codes "CUC"
    ∷ codes "CUP"
    ∷ codes "CVE"
    ∷ codes "CZK"
    ∷ codes "DJF"
    ∷ codes "DKK"
    ∷ codes "DOP"
    ∷ codes "DZD"
    ∷ codes "EGP"
    ∷ codes "ERN"
    ∷ codes "ETB"
    ∷ codes "EUR"
    ∷ codes "FJD"
    ∷ codes "FKP"
    ∷ codes "GBP"
    ∷ codes "GEL"
    ∷ codes "GGP"
    ∷ codes "GHS"
    ∷ codes "GIP"
    ∷ codes "GMD"
    ∷ codes "XAU"
    ∷ codes "GNF"
    ∷ codes "GTQ"
    ∷ codes "GYD"
    ∷ codes "HKD"
    ∷ codes "HNL"
    ∷ codes "HRK"
    ∷ codes "HTG"
    ∷ codes "HUF"
    ∷ codes "IDR"
    ∷ codes "ILS"
    ∷ codes "IMP"
    ∷ codes "INR"
    ∷ codes "IQD"
    ∷ codes "IRR"
    ∷ codes "ISK"
    ∷ codes "JEP"
    ∷ codes "JMD"
    ∷ codes "JOD"
    ∷ codes "JPY"
    ∷ codes "KES"
    ∷ codes "XKW"
    ∷ codes "KGS"
    ∷ codes "KHR"
    ∷ codes "KMF"
    ∷ codes "KPW"
    ∷ codes "KRW"
    ∷ codes "KWD"
    ∷ codes "KYD"
    ∷ codes "KZT"
    ∷ codes "LAK"
    ∷ codes "LBP"
    ∷ codes "LKR"
    ∷ codes "LRD"
    ∷ codes "LSL"
    ∷ codes "LTC"
    ∷ codes "LTL"
    ∷ codes "LVL"
    ∷ codes "LYD"
    ∷ codes "MAD"
    ∷ codes "MDL"
    ∷ codes "MGA"
    ∷ codes "MKD"
    ∷ codes "MMK"
    ∷ codes "MNT"
    ∷ codes "MOP"
    ∷ codes "MRO"
    ∷ codes "MUR"
    ∷ codes "MVR"
    ∷ codes "MWK"
    ∷ codes "MXN"
    ∷ codes "MYR"
    ∷ codes "MZN"
    ∷ codes "NAD"
    ∷ codes "NGN"
    ∷ codes "NIO"
    ∷ codes "NMC"
    ∷ codes "NOK"
    ∷ codes "NPR"
    ∷ codes "NZD"
    ∷ codes "OMR"
    ∷ codes "PAB"
    ∷ codes "PEN"
    ∷ codes "PGK"
    ∷ codes "PHP"
    ∷ codes "PKR"
    ∷ codes "PLN"
    ∷ codes "PYG"
    ∷ codes "QAR"
    ∷ codes "RON"
    ∷ codes "RSD"
    ∷ codes "RUB"
    ∷ codes "RWF"
    ∷ codes "SAR"
    ∷ codes "SBD"
    ∷ codes "SCR"
    ∷ codes "SDG"
    ∷ codes "SEK"
    ∷ codes "SGD"
    ∷ codes "SHP"
    ∷ codes "SLL"
    ∷ codes "XAG"
    ∷ codes "SOS"
    ∷ codes "SPL"
    ∷ codes "SRD"
    ∷ codes "STD"
    ∷ codes "SVC"
    ∷ codes "SYP"
    ∷ codes "SZL"
    ∷ codes "THB"
    ∷ codes "TJS"
    ∷ codes "TMT"
    ∷ codes "TND"
    ∷ codes "TOP"
    ∷ codes "TRY"
    ∷ codes "TTD"
    ∷ codes "TVD"
    ∷ codes "TWD"
    ∷ codes "TZS"
    ∷ codes "UAH"
    ∷ codes "UGX"
    ∷ codes "USD"
    ∷ codes "UYU"
    ∷ codes "UZS"
    ∷ codes "VEF"
    ∷ codes "VND"
    ∷ codes "VUV"
    ∷ codes "WST"
    ∷ codes "XAF"
    ∷ codes "XCD"
    ∷ codes "XDR"
    ∷ codes "XOF"
    ∷ codes "XPF"
    ∷ codes "YER"
    ∷ codes "ZAR"
    ∷ codes "ZMW"
    ∷ []
