-- ===== src/Currency/Literals.antt =====
-- Currency.cpp, the string literals of `Currency::currencyNames` without ZR_TESTNET, one for each line,
-- as the author wrote them.
use zero_reserve.Base.{Text, codes, List, [], ◌∷◌}

abbrev pub name_literals : List Text
name_literals =
    codes "UAE Dirham"
    ∷ codes "Afghanistan Afghani"
    ∷ codes "Albania Lek"
    ∷ codes "Armenia Dram"
    ∷ codes "Netherlands Antilles Guilder"
    ∷ codes "Angola Kwanza"
    ∷ codes "Argentina Peso"
    ∷ codes "Australia Dollar"
    ∷ codes "Aruba Guilder"
    ∷ codes "Azerbaijan New Manat"
    ∷ codes "Bosnia and Herzegovina Convertible Marka"
    ∷ codes "Barbados Dollar"
    ∷ codes "Bangladesh Taka"
    ∷ codes "Bulgaria Lev"
    ∷ codes "Bahrain Dinar"
    ∷ codes "Burundi Franc"
    ∷ codes "Bermuda Dollar"
    ∷ codes "Brunei Darussalam Dollar"
    ∷ codes "Bolivia Boliviano"
    ∷ codes "Brazil Real"
    ∷ codes "Bahamas Dollar"
    ∷ codes "Bitcoin"
    ∷ codes "Bhutan Ngultrum"
    ∷ codes "Botswana Pula"
    ∷ codes "Belarus Ruble"
    ∷ codes "Belize Dollar"
    ∷ codes "Canada Dollar"
    ∷ codes "Congo/Kinshasa Franc"
    ∷ codes "Switzerland Franc"
    ∷ codes "Chile Peso"
    ∷ codes "China Yuan Renminbi"
    ∷ codes "Colombia Peso"
    ∷ codes "Costa Rica Colon"
    ∷ codes "Cuba Convertible Peso"
    ∷ codes "Cuba Peso"
    ∷ codes "Cape Verde Escudo"
    ∷ codes "Czech Republic Koruna"
    ∷ codes "Djibouti Franc"
    ∷ codes "Denmark Krone"
    ∷ codes "Dominican Republic Peso"
    ∷ codes "Algeria Dinar"
    ∷ codes "Egypt Pound"
    ∷ codes "Eritrea Nakfa"
    ∷ codes "Ethiopia Birr"
    ∷ codes "Euro"
    ∷ codes "Fiji Dollar"
    ∷ codes "Falkland/Malvinas Pound"
    ∷ codes "United Kingdom Pound"
    ∷ codes "Georgia Lari"
    ∷ codes "Guernsey Pound"
    ∷ codes "Ghana Cedi"
    ∷ codes "Gibraltar Pound"
    ∷ codes "Gambia Dalasi"
    ∷ codes "Gold (troy ounce)"
    ∷ codes "Guinea Franc"
    ∷ codes "Guatemala Quetzal"
    ∷ codes "Guyana Dollar"
    ∷ codes "Hong Kong Dollar"
    ∷ codes "Honduras Lempira"
    ∷ codes "Croatia Kuna"
    ∷ codes "Haiti Gourde"
    ∷ codes "Hungary Forint"
    ∷ codes "Indonesia Rupiah"
    ∷ codes "Israel Shekel"
    ∷ codes "Isle of Man Pound"
    ∷ codes "India Rupee"
    ∷ codes "Iraq Dinar"
    ∷ codes "Iran Rial"
    ∷ codes "Iceland Krona"
    ∷ codes "Jersey Pound"
    ∷ codes "Jamaica Dollar"
    ∷ codes "Jordan Dinar"
    ∷ codes "Japan Yen"
    ∷ codes "Kenya Shilling"
    ∷ codes "Kilowatt Hours"
    ∷ codes "Kyrgyzstan Som"
    ∷ codes "Cambodia Riel"
    ∷ codes "Comoros Franc"
    ∷ codes "Korea (North) Won"
    ∷ codes "Korea (South) Won"
    ∷ codes "Kuwait Dinar"
    ∷ codes "Cayman Islands Dollar"
    ∷ codes "Kazakhstan Tenge"
    ∷ codes "Laos Kip"
    ∷ codes "Lebanon Pound"
    ∷ codes "Sri Lanka Rupee"
    ∷ codes "Liberia Dollar"
    ∷ codes "Lesotho Loti"
    ∷ codes "Litecoin"
    ∷ codes "Lithuania Litas"
    ∷ codes "Latvia Lat"
    ∷ codes "Libya Dinar"
    ∷ codes "Morocco Dirham"
    ∷ codes "Moldova Leu"
    ∷ codes "Madagascar Ariary"
    ∷ codes "Macedonia Denar"
    ∷ codes "Myanmar (Burma) Kyat"
    ∷ codes "Mongolia Tughrik"
    ∷ codes "Macau Pataca"
    ∷ codes "Mauritania Ouguiya"
    ∷ codes "Mauritius Rupee"
    ∷ codes "Maldives Rufiyaa"
    ∷ codes "Malawi Kwacha"
    ∷ codes "Mexico Peso"
    ∷ codes "Malaysia Ringgit"
    ∷ codes "Mozambique Metical"
    ∷ codes "Namibia Dollar"
    ∷ codes "Nigeria Naira"
    ∷ codes "Nicaragua Cordoba"
    ∷ codes "Namecoin"
    ∷ codes "Norway Krone"
    ∷ codes "Nepal Rupee"
    ∷ codes "New Zealand Dollar"
    ∷ codes "Oman Rial"
    ∷ codes "Panama Balboa"
    ∷ codes "Peru Nuevo Sol"
    ∷ codes "Papua New Guinea Kina"
    ∷ codes "Philippines Peso"
    ∷ codes "Pakistan Rupee"
    ∷ codes "Poland Zloty"
    ∷ codes "Paraguay Guarani"
    ∷ codes "Qatar Riyal"
    ∷ codes "Romania New Leu"
    ∷ codes "Serbia Dinar"
    ∷ codes "Russia Ruble"
    ∷ codes "Rwanda Franc"
    ∷ codes "Saudi Arabia Riyal"
    ∷ codes "Solomon Islands Dollar"
    ∷ codes "Seychelles Rupee"
    ∷ codes "Sudan Pound"
    ∷ codes "Sweden Krona"
    ∷ codes "Singapore Dollar"
    ∷ codes "Saint Helena Pound"
    ∷ codes "Sierra Leone Leone"
    ∷ codes "Silver (Troy Ounce)"
    ∷ codes "Somalia Shilling"
    ∷ codes "Seborga Luigino"
    ∷ codes "Suriname Dollar"
    ∷ codes "São Tomé and Príncipe Dobra"
    ∷ codes "El Salvador Colon"
    ∷ codes "Syria Pound"
    ∷ codes "Swaziland Lilangeni"
    ∷ codes "Thailand Baht"
    ∷ codes "Tajikistan Somoni"
    ∷ codes "Turkmenistan Manat"
    ∷ codes "Tunisia Dinar"
    ∷ codes "Tonga Pa'anga"
    ∷ codes "Turkey Lira"
    ∷ codes "Trinidad and Tobago Dollar"
    ∷ codes "Tuvalu Dollar"
    ∷ codes "Taiwan New Dollar"
    ∷ codes "Tanzania Shilling"
    ∷ codes "Ukraine Hryvna"
    ∷ codes "Uganda Shilling"
    ∷ codes "United States Dollar"
    ∷ codes "Uruguay Peso"
    ∷ codes "Uzbekistan Som"
    ∷ codes "Venezuela Bolivar"
    ∷ codes "Viet Nam Dong"
    ∷ codes "Vanuatu Vatu"
    ∷ codes "Samoa Tala"
    ∷ codes "CFA Franc BEAC"
    ∷ codes "East Caribbean Dollar"
    ∷ codes "IMF Special Drawing Rights"
    ∷ codes "BCEAO Franc"
    ∷ codes "CFP Franc"
    ∷ codes "Yemen Rial"
    ∷ codes "South Africa Rand"
    ∷ codes "Zambia Kwacha"
    ∷ []
