-- ===== src/Drivedb/Table/Ata07.antt =====
-- backends/exec/drivedb.h, lines 4819 to 4968.
use Prim.Native.String.{String}

unfoldable pub ata_text_07 : String
ata_text_07 =
    "    \"-v 240,msec24hour32\"\n  },\n  { \"Seagate Exos X18\", // tested with ST12000NM000J-2TY103/SN02,\n      // ST16000NM000J-2TW103/SC02, ST18000NM000J-2TV103/SN01, .../SN02,\n      // ST18000NM002J-2TV133/PAL7 (Dell)\n    \"ST1(0000NM0(18|20)G|[2468]000NM00[012]J)-.*\",\n    \"\", \"\",\n    \"-v 1,raw24/raw32 -v 7,raw24/raw32 \"\n    \"-v 18,raw48,Head_Health \"\n    \"-v 188,raw16 \"\n    \"-v 200,raw48,Pressure_Limit \"\n    \"-v 240,msec24hour32\"\n  },\n  { \"Seagate Exos X20/X22\", // tested with ST20000NM007D-3DJ103/SN01, .../SN03,\n      // ST22000NM001E-3HM103/SN03, ST16000NM000D-3PC101/SN01 (recertified),\n      // ST16000NM000E-3NV101/ZZF1 (recertified). ST22000NM000C-3WC103/SN02 (recertified),\n      // OOS20000G/OOS1\n    \"ST(16|18|20)000NM00[0347]D-.*|\" // X20\n    \"ST(16|2[02])000NM00[01]E-.*|\" // X22\n    \"ST22000NM000C-.*|\" // 22TB recertified\n    \"OOS20000G\", // 20TB refurbished and rebranded\n    \"\", \"\",\n    \"-v 1,raw24/raw32 -v 7,raw24/raw32 \"\n    \"-v 18,raw48,Head_Health \"\n    \"-v 188,raw16 \"\n    \"-v 200,raw48,Pressure_Limit \"\n    \"-v 240,msec24hour32\"\n  },\n  { \"Seagate Exos X24\", // tested with ST24000NM002H-3KS133/SE03,\n      // ST24000NM000C-3WD103/SN02 (30TB HAMR recertified to 24TB CMR ?)\n    \"ST((12|16|20|24)000NM002H|24000NM000C)-.*\",\n    \"\", \"\",\n    \"-v 1,raw24/raw32 -v 7,raw24/raw32 \"\n    \"-v 18,raw48,Head_Health \"\n    \"-v 188,raw16 \"\n    \"-v 200,raw48,Pressure_Limit \"\n    \"-v 240,msec24hour32\"\n  },\n  // new models: ST8000VN0002, ST6000VN0021, ST4000VN000\n  //             ST8000VN0012, ST6000VN0031, ST4000VN003\n  // tested with ST8000VN0002-1Z8112/ZA13YGNF\n  { \"Seagate NAS HDD\", // tested with ST2000VN000-1H3164/SC42, ST3000VN000-1H4167/SC43\n    \"ST([234]000VN000|[468]000VN00(02|21|12|31|3))-.*\",\n    \"\", \"\", \"\"\n  },\n  // ST8000NE0001, ST8000NE0011, ST6000VN0001, ST6000VN0011, ST5000VN0001,\n  // ST5000VN0011, ST4000VN0001, ST4000VN0011, ST3000VN0001, ST3000VN0011,\n  // ST2000VN0001, ST2000VN0011\n  // tested with ST8000NE0001-1WN112/PNA2\n  { \"Seagate Enterprise NAS HDD\",\n    \"ST(8000NE|[65432]000VN)00[01]1-.*\",\n    \"\", \"\", \"\"\n  },\n  { \"Seagate IronWolf\", // tested with ST2000VN003-3CW102/SC60, ST3000VN007-2E4166/SC60,\n      // ST4000VN006-3CW104/SC60, ST4000VN008-2DR166/SC60, ST6000VN001-2BB186/SC60,\n      // ST6000VN0033-2EE110/SC60, ST6000VN0041-2EL11C/SC61, ST8000VN0022-2EL112/SC61,\n      // ST10000VN000-3AK101/SC60, ST10000VN0004-1ZD101/SC60, ST10000VN0004-2GS11L/SC60,\n      // ST12000VN0007-2GS116/SC60, ST12000VN0008-2JH101/SC60, ST16000VN001-2RV103/SC60,\n      // Synology HAT3300-4T/PL01\n    \"ST([123468]|1[0246])000VN00(0?[0234678]|1|22|33|41)-.*|\"\n    \"Synology HAT3300-(2|4|6|12)T\",\n    \"\", \"\",\n    \"-v 1,raw24/raw32 -v 7,raw24/raw32 \"\n    \"-v 18,raw48,Head_Health \"\n    \"-v 188,raw16 \"\n    \"-v 195,raw24/raw32 \"\n    \"-v 200,raw48,Pressure_Limit \"\n    \"-v 240,msec24hour32\"\n  },\n  { \"Seagate IronWolf Pro\", // tested with ST4000NE0025-2EW107/EN02, ST6000NE0023-2EX110/EN02,\n      // ST6000NE000-2KR101/EN01, ST8000NE001-2M7101/EN01, ST8000NE0004-1ZF11G/EN01,\n      // ST8000NE0021-2EN112/EN02, ST12000NT001-3LX101/EN01, ST16000NE000-2RW103/EN02,\n      // ST16000NT001-3LV101/EN01, ST18000NE000-3G6101/EN01, ST18000NT001-3LU101/EN01,\n    \"ST([24]000NE00([01]|25)|6000NE00(0|23)|8000NE00([01]|0[48]|21))-.*|\"\n    \"ST(1[02468]|2[02])000NE(000[478]?)-.*|\"\n    \"ST([2468]|1[02468]|2[02])000NT001-.*\",\n    \"\", \"\",\n    \"-v 18,raw48,Head_Health \" // ST16000NE000, ST18000NT001\n    \"-v 188,raw16 \"\n    \"-v 200,raw48,Pressure_Limit \"\n    \"-v 240,msec24hour32\"\n  },\n  { \"Seagate Archive HDD (SMR)\", // tested with ST8000AS0002-1NA17Z/AR13\n    \"ST[568]000AS00[01][12]-.*\",\n    \"\", \"\", \"\"\n  },\n  { \"Seagate Pipeline HD 5900.1\",\n    \"ST3(160310|320[34]10|500(321|422))CS\",\n    \"\", \"\", \"\"\n  },\n  { \"Seagate Pipeline HD 5900.2\", // tested with ST31000322CS/SC13\n    \"ST3(160316|250[34]12|320(311|413)|500(312|414)|1000(322|424))CS\",\n    \"\", \"\", \"\"\n  },\n  { \"Seagate Video 3.5 HDD\", // tested with ST4000VM000-1F3168/SC23, SC25\n    \"ST(10|15|20|30|40)00VM00[023]-.*\",\n    \"\", \"\", \"\"\n  },\n  { \"Seagate Medalist 17240, 13030, 10231, 8420, and 4310\",\n    \"ST3(17240|13030|10231|8420|4310)A\",\n    \"\", \"\", \"\"\n  },\n  { \"Seagate Medalist 17242, 13032, 10232, 8422, and 4312\",\n    \"ST3(1724|1303|1023|842|431)2A\",\n    \"\", \"\", \"\"\n  },\n  { \"Seagate NL35\",\n    \"ST3(250623|250823|400632|400832|250824|250624|400633|400833|500641|500841)NS\",\n    \"\", \"\", \"\"\n  },\n  { \"Seagate SV35.2\",\n    \"ST3(160815|250820|320620|500630|750640)[AS]V\",\n    \"\", \"\", \"\"\n  },\n  { \"Seagate SV35.3\", // tested with ST3500320SV/SV16\n    \"ST3(500320|750330|1000340)SV\",\n    \"\", \"\", \"\"\n  },\n  { \"Seagate SV35.5\", // tested with ST31000525SV/CV12\n    \"ST3(250311|500410|1000525)SV\",\n    \"\", \"\", \"\"\n  },\n  // ST6000VX0001,ST6000VX0011,ST5000VX0001,ST5000VX0011,ST4000VX000\n  // ST4000VX002, ST3000VX002, ST2000VX003, ST1000VX001, ST1000VX002\n  // ST3000VX000, ST3000VX004, ST2000VX000, ST2000VX004, ST1000VX000\n  { \"Seagate Surveillance\", // tested with ST1000VX001-1HH162/CV11, ST2000VX000-9YW164/CV12,\n      // ST4000VX000-1F4168/CV14, ST2000VX003-1HH164/CV12\n    \"ST([1-5]000VX00[01234]1?|31000526SV|3500411SV)(-.*)?\",\n    \"\", \"\", \"\"\n  },\n  { \"Seagate SkyHawk\", // tested with ST3000VX010-2H916L/CV11, ST4000VX016-3CV104/CV10,\n      // ST6000VX0023-2EF110/SC60\n    \"ST(1000VX005|2000VX008|3000VX0(09|10)|4000VX0(07|16)|6000VX00(1|23)|8000VX00(4|22))-.*\",\n    \"\", \"\",\n    \"-v 9,msec24hour32 \" // CV* Firmware only?\n    \"-v 240,msec24hour32\"\n  },\n  { \"Seagate DB35\", // tested with ST3250823ACE/3.03, ST3300831SCE/3.03\n    \"ST3(200826|250823|300831|400832)[AS]CE\",\n    \"\", \"\", \"\"\n  },\n  { \"Seagate DB35.2\", // tested with ST3160212SCE/3.ACB\n    \"ST3(802110|120213|160212|200827|250824|300822|400833|500841)[AS]CE\",\n    \"\", \"\", \"\"\n  },\n  { \"Seagate DB35.3\",\n    \"ST3(750640SCE|((80|160)215|(250|320|400)820|500830|750840)[AS]CE)\",\n    \"\", \"\", \"\"\n  },\n  { \"Seagate EE25.2\", // tested with ST980818SM/3.AAB"
