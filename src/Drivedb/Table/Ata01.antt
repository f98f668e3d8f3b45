-- ===== src/Drivedb/Table/Ata01.antt =====
-- backends/exec/drivedb.h, lines 3919 to 4068.
use Prim.Native.String.{String}

unfoldable pub ata_text_01 : String
ata_text_01 =
    "    \"WDC WD(8|10|12|14|16)0E([MZ]A|DA|DF|DG)Z-.*\",\n    \"\", \"\", \"\"\n  //\"-v 22,raw48,Helium_Level\" // not: WD80EDAZ\n  },\n  { \"HGST Ultrastar DC HC520 (He12)\", // tested with HGST HUH721212ALE600/LEGNT3D0\n    \"HGST HUH721212AL[EN]60[014]\",\n    \"\", \"\", \"\"\n  //\"-v 22,raw48,Helium_Level\"\n  },\n  { \"Western Digital Ultrastar DC HC530\", // tested with\n      // WDC  WUH721414ALE604/LDAZW110, WDC  WUH721414ALE6L4/LDGNW07G\n    \"WDC  ?WUH721414ALE6[0L]4\",\n    \"\", \"\",\n  //\"-v 22,raw48,Helium_Level \"\n    \"-v 188,raw16 \"\n  },\n  { \"Western Digital Ultrastar DC HC550\", // tested with WDC  WUH721818ALE6L4/PCGNW110,\n      // WUH721818ALE6L4/PCGAW232, WDC  WUH721818ALN6L4/PCGNW088\n    \"(WDC  ?)?WUH72181[68]AL[EN]6[0L][0146]\",\n    \"\", \"\", \"\"\n  //\"-v 22,raw48,Helium_Level\"\n  },\n  { \"Western Digital Ultrastar DC HC560\", // tested with WDC  WUH722020ALN604/PQGNW108\n    // WDC WUH722020BLE6L4,\n    // WDC WD200EDGZ-11BLDS0/85.00A85 (White label, Elements 0x1058:0x25a3)\n    \"(WDC  ?)?WUH722020[AB]L[EN]6[0L][014]|\"\n    \"WDC WD200EDGZ-.*\",\n    \"\", \"\",\n  //\"-v 22,raw48,Helium_Level \"\n    \"-v 82,raw16,Head_Health_Score \"\n    \"-v 90,hex48,NAND_Master\"\n  },\n  { \"Western Digital Ultrastar DC HC570\", // tested with WUH722222ALE604\n    \"(WDC  ?)?WUH722222[AB]L[EN]6[0L]4\",\n    \"\", \"\",\n  //\"-v 22,raw48,Helium_Level \"\n    \"-v 71,raw16,Milli_Micro_Actuator \"\n    \"-v 82,raw16,Head_Health_Score \"\n    \"-v 90,hex48,NAND_Master\"\n  },\n  { \"Western Digital Ultrastar DC HC580\", // tested with WDC  WUH722424ALE6L4/LVGNWF10\n    \"(WDC  ?)?WUH72242[24]ALE6L[14]\",\n    \"\", \"\",\n  //\"-v 22,raw48,Helium_Level \"\n    \"-v 71,raw16,Milli_Micro_Actuator \"\n    \"-v 90,hex48,NAND_Master\"\n  },\n  { \"Western Digital Ultrastar DC HC650\", // tested with WDC  WSH722020ALE6L0/PCGMT421\n    \"(WDC  ?)?WSH7220(20|VC)AL[EN]6[0L][0146]\",\n    \"\", \"\", \"\"\n  //\"-v 22,raw48,Helium_Level\"\n  },\n  { \"Western Digital Ultrastar DC HC670\", // WSH722626ALE604\n    \"(WDC  ?)?WSH722222[AB]L[EN]6[0L]4\",\n    \"\", \"\",\n  //\"-v 22,raw48,Helium_Level \"\n    \"-v 71,raw16,Milli_Micro_Actuator \"\n    \"-v 82,raw16,Head_Health_Score \"\n    \"-v 90,hex48,NAND_Master\"\n  },\n  { \"HGST MegaScale 4000\", // tested with HGST HMS5C4040ALE640/MPAOA580\n    \"HGST HMS5C4040[AB]LE64[01]\", // B = DC 4000.B\n    \"\", \"\", \"\"\n  },\n  { \"Toshiba 2.5\\\" HDD (10-20 GB)\",\n    \"TOSHIBA MK(101[67]GAP|15[67]GAP|20(1[678]GAP|(18|23)GAS))\",\n    \"\", \"\", \"\"\n  },\n  { \"Toshiba 2.5\\\" HDD (30-60 GB)\",\n    \"TOSHIBA MK((6034|4032)GSX|(6034|4032)GAX|(6026|4026|4019|3019)GAXB?|(6025|6021|4025|4021|4018|3025|3021|3018)GAS|(4036|3029)GACE?|(4018|3017)GAP)\",\n    \"\", \"\", \"\"\n  },\n  { \"Toshiba 2.5\\\" HDD (80 GB and above)\",\n    \"TOSHIBA MK(80(25GAS|26GAX|32GAX|32GSX)|10(31GAS|32GAX)|12(33GAS|34G[AS]X)|2035GSS)\",\n    \"\", \"\", \"\"\n  },\n  { \"Toshiba 2.5\\\" HDD MK..37GSX\", // tested with TOSHIBA MK1637GSX/DL032C\n    \"TOSHIBA MK(12|16)37GSX\",\n    \"\", \"\", \"\"\n  },\n  { \"Toshiba 2.5\\\" HDD MK..46GSX\", // tested with TOSHIBA MK1246GSX/LB213M\n    \"TOSHIBA MK(80|12|16|25)46GSX\",\n    \"\", \"\", \"\"\n  },\n  { \"Toshiba 2.5\\\" HDD MK..50GACY\", // tested with TOSHIBA MK8050GACY/TF105A\n    \"TOSHIBA MK8050GACY\",\n    \"\", \"\", \"\"\n  },\n  { \"Toshiba 2.5\\\" HDD MK..34GSX\", // tested with TOSHIBA MK8034GSX/AH301E\n    \"TOSHIBA MK(80|12|10)34GSX\",\n    \"\", \"\", \"\"\n  },\n  { \"Toshiba 2.5\\\" HDD MK..32GSX\", // tested with TOSHIBA MK1032GSX/AS021G\n    \"TOSHIBA MK(10|80|60|40)32GSX\",\n    \"\", \"\", \"\"\n  },\n  { \"Toshiba 2.5\\\" HDD MK..51GSY\", // tested with TOSHIBA MK1251GSY/LD101D\n    \"TOSHIBA MK(80|12|16|25)51GSY\",\n    \"\",\n    \"\",\n    \"-v 9,minutes\"\n  },\n  { \"Toshiba 2.5\\\" HDD MK..52GSX\", // tested with TOSHIBA MK3252GSX/LV010A\n    \"TOSHIBA MK(80|12|16|25|32)52GSX\",\n    \"\", \"\", \"\"\n  },\n  { \"Toshiba 2.5\\\" HDD MK..55GSX\", // tested with TOSHIBA MK5055GSX/FG001A, MK3255GSXF/FH115B\n    \"TOSHIBA MK(12|16|25|32|40|50)55GSXF?\",\n    \"\", \"\", \"\"\n  },\n  { \"Toshiba 2.5\\\" HDD MK..56GSY\", // tested with TOSHIBA MK2556GSYF/LJ001D\n    \"TOSHIBA MK(16|25|32|50)56GSYF?\",\n    \"\",\n    \"\",\n    \"-v 9,minutes\"\n  },\n  { \"Toshiba 2.5\\\" HDD MK..59GSXP (AF)\",\n    \"TOSHIBA MK(32|50|64|75)59GSXP?\",\n    \"\", \"\", \"\"\n  },\n  { \"Toshiba 2.5\\\" HDD MK..59GSM (AF)\",\n    \"TOSHIBA MK(75|10)59GSM\",\n    \"\", \"\", \"\"\n  },\n  { \"Toshiba 2.5\\\" HDD MK..61GSY[N]\", // tested with TOSHIBA MK5061GSY/MC102E, MK5061GSYN/MH000A,\n      // TOSHIBA MK2561GSYN/MH000D\n    \"TOSHIBA MK(16|25|32|50|64)61GSYN?\",\n    \"\",\n    \"\",\n    \"-v 9,minutes\" // TOSHIBA MK2561GSYN/MH000D\n  },\n  { \"Toshiba 2.5\\\" HDD MK..61GSYB\", // tested with TOSHIBA MK5061GSYB/ME0A\n    \"TOSHIBA MK(16|25|32|50|64)61GSYB\",\n    \"\", \"\", \"\"\n  },\n  { \"Toshiba 2.5\\\" HDD MK..65GSX\", // tested with TOSHIBA MK5065GSX/GJ003A, MK3265GSXN/GH012H,\n      // MK5065GSXF/GP006B, MK2565GSX H/GJ003A\n    \"TOSHIBA MK(16|25|32|50|64)65GSX[FN]?( H)?\", // \"... H\" = USB ?\n    \"\", \"\", \"\"\n  },\n  { \"Toshiba 2.5\\\" HDD MK..75GSX\", // tested with TOSHIBA MK7575GSX/GT001C\n    \"TOSHIBA MK(32|50|64|75)75GSX\",\n    \"\", \"\", \"\"\n  },\n  { \"Toshiba 2.5\\\" HDD MK..76GSX/GS001A\", // tested with TOSHIBA MK2576GSX/GS001A\n    \"TOSHIBA MK(16|25|32|50|64)76GSX\",\n    \"GS001A\",\n    \"\", \"\"\n  },\n  { \"Toshiba 2.5\\\" HDD MK..76GSX\", // tested with TOSHIBA MK3276GSX/GS002D"
