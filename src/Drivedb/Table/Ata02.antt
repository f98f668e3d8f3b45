-- ===== src/Drivedb/Table/Ata02.antt =====
-- backends/exec/drivedb.h, lines 4069 to 4218.
use Prim.Native.String.{String}

unfoldable pub ata_text_02 : String
ata_text_02 =
    "    \"TOSHIBA MK(16|25|32|50|64)76GSX\",\n    \"\",\n    \"\",\n    \"-v 9,minutes\"\n  },\n  { \"Toshiba 2.5\\\" HDD MQ01ABB...\", // tested with TOSHIBA MQ01ABB200/AY000U\n    \"TOSHIBA MQ01ABB(100|150|200)\",\n    \"\", \"\", \"\"\n  },\n  { \"Toshiba 2.5\\\" HDD MQ01ABC...\", // tested with TOSHIBA MQ01ABC150/AQ001U\n    \"TOSHIBA MQ01ABC(100|150|200)\",\n    \"\", \"\", \"\"\n  },\n  { \"Toshiba 2.5\\\" HDD MQ01ABD...\", // tested with TOSHIBA MQ01ABD100/AX001U,\n      // TOSHIBA MQ01ABD100/AX1R4C, TOSHIBA MQ01ABD100V/AX001Q\n    \"TOSHIBA MQ01ABD(025|032|050|064|075|100)V?\",\n    \"\", \"\", \"\"\n  },\n  { \"Toshiba 2.5\\\" HDD MQ01ABF...\", // tested with TOSHIBA MQ01ABF050/AM001J,\n      // TOSHIBA MQ01ABF032/AM001J\n    \"TOSHIBA MQ01ABF(032|050|075|100)\",\n    \"\", \"\", \"\"\n  },\n  { \"Toshiba 2.5\\\" HDD MQ01UBB... (USB 3.0)\", // tested with TOSHIBA MQ01UBB200/AY000U (0x0480:0xa100),\n      // TOSHIBA MQ01UBB200/34MATMZ5T (0x05ac:0x8406)\n    \"TOSHIBA MQ01UBB200\",\n    \"\", \"\", \"\"\n  },\n  { \"Toshiba 2.5\\\" HDD MQ01UBD... (USB 3.0)\", // tested with TOSHIBA MQ01UBD050/AX001U (0x0480:0xa007),\n      // TOSHIBA MQ01UBD100/AX001U (0x0480:0x0201, 0x0480:0xa200),\n      // TOSHIBA MQ01UBD050/AX101U (0x0480:0xa202)\n    \"TOSHIBA MQ01UBD(050|075|100)\",\n    \"\", \"\", \"\"\n  },\n  { \"Toshiba 2.5\\\" HDD MQ04UBF... (USB 3.0)\", // tested with TOSHIBA MQ04UBF100/JU000U (0x0480:0xa202)\n    \"TOSHIBA MQ04UBF100\",\n    \"\", \"\", \"\"\n  },\n  { \"Toshiba 2.5\\\" HDD MQ04UBD...\", // tested with TOSHIBA MQ04UBD200/68U2T2VWT\n    \"TOSHIBA MQ04UBD200\",\n    \"\", \"\", \"\"\n  },\n  { \"Toshiba 2.5\\\" HDD MQ03ABB...\", // tested with TOSHIBA MQ03ABB300\n    \"TOSHIBA MQ03ABB[23]00\",\n    \"\", \"\", \"\"\n  },\n  { \"Toshiba 2.5\\\" HDD MQ03UBB...\", // tested with TOSHIBA MQ03UBB200/37I7T0NJT\n    \"TOSHIBA MQ03UBB(300|200|250)\",\n    \"\", \"\", \"\"\n  },\n  { \"Toshiba 2.5\\\" HDD MQ04UBB... (USB, SMR)\", // tested with TOSHIBA MQ04UBB400/JS000U,\n      // TOSHIBA MQ04UBB400/JS0B0U (0x0480:0xa301) ('Device managed zones', no TRIM support)\n    \"TOSHIBA MQ04UBB[24]00\",\n    \"\", \"\", \"\"\n  },\n  { \"Toshiba 3.5\\\" HDD MK.002TSKB\", // tested with TOSHIBA MK1002TSKB/MT1A\n    \"TOSHIBA MK(10|20)02TSKB\",\n    \"\", \"\", \"\"\n  },\n  { \"Toshiba 3.5\\\" MG03ACAxxx(Y) Enterprise HDD\", // tested with TOSHIBA MG03ACA100/FL1A\n    \"TOSHIBA MG03ACA[1234]00Y?\",\n    \"\", \"\", \"\"\n  },\n  { \"Toshiba MD04ACA... Enterprise HDD\", // tested with TOSHIBA MD04ACA500/FP1A\n    \"TOSHIBA MD04ACA[2-6]00N?\",\n    \"\", \"\", \"\"\n  },\n  { \"Toshiba MG04ACA... Enterprise HDD\", // tested with TOSHIBA MG04ACA600A/FS2B,\n      // TOSHIBA MG04ACA400NY/FK5D (Dell)\n    \"TOSHIBA MG04ACA[1-6]00[AEN]Y?\",\n    \"\", \"\", \"\"\n  },\n  { \"Toshiba MG05ACA... Enterprise Capacity HDD\", // tested with TOSHIBA MG05ACA800E/GX2A\n    \"TOSHIBA MG05ACA800[AE]\",\n    \"\", \"\", \"\"\n  },\n  { \"Toshiba MG06ACA... Enterprise Capacity HDD\", // tested with TOSHIBA MG06ACA800E/0109,\n      // TOSHIBA MG06ACA800E/4303, TOSHIBA MG06ACA10TE/0103,\n    \"TOSHIBA MG06ACA([68]00|10T)[AE]Y?\",\n    \"\", \"\", \"\"\n  },\n  { \"Toshiba MG07ACA... Enterprise Capacity HDD\", // tested with TOSHIBA MG07ACA14TE/0101\n    \"TOSHIBA MG07ACA1[24]T[AE]Y?\",\n    \"\", \"\", \"\"\n  //\"-v 23,raw48,Helium_Condition_Lower \"\n  //\"-v 24,raw48,Helium_Condition_Upper\"\n  },\n  { \"Toshiba MG08ACA... Enterprise Capacity HDD\", // tested with TOSHIBA MG08ACA14TE/0102,\n      // TOSHIBA MG08ACA16TE/0102\n    \"TOSHIBA MG08ACA1[46]T[AE]Y?\",\n    \"\", \"\", \"\"\n  //\"-v 23,raw48,Helium_Condition_Lower \"\n  //\"-v 24,raw48,Helium_Condition_Upper\"\n  },\n  { \"Toshiba MG08ADA... Enterprise Capacity HDD\", // tested with TOSHIBA MG08ADA800E/0101,\n      // TOSHIBA MG08ADA800E/4303, TOSHIBA MG08ADA800E/4304\n    \"TOSHIBA MG08ADA[468]00[AEN]Y?\",\n    \"\", \"\", \"\"\n  },\n  { \"Toshiba MG09ACA... Enterprise Capacity HDD\", // tested with TOSHIBA MG09ACA18TE/0102,\n      // \"MG09ACA12TE          01GV181D7A01906LEN/BB3A\"\n    \"(TOSHIBA )?MG09ACA1[02468]T[AE]Y?( .*LEN)?\",\n    \"\", \"\",\n  //\"-v 23,raw48,Helium_Condition_Lower \"\n  //\"-v 24,raw48,Helium_Condition_Upper \"\n    \"-v 27,raw48,MAMR_Health_Monitor\"\n  },\n  { \"Toshiba MG10ACA... Enterprise Capacity HDD\", // tested with TOSHIBA MG10ACA20TE/0102\n    \"TOSHIBA MG10ACA20T[AE]Y?\",\n    \"\", \"\",\n  //\"-v 23,raw48,Helium_Condition_Lower \"\n  //\"-v 24,raw48,Helium_Condition_Upper \"\n    \"-v 27,raw48,MAMR_Health_Monitor\"\n  },\n  { \"Toshiba MG10ADA... Enterprise Capacity HDD\", // tested with TOSHIBA MG10ADA10TE/0101\n    \"TOSHIBA MG10ADA([12468]00|10T)[EN]\",\n    \"\", \"\",\n  //\"-v 23,raw48,Helium_Condition_Lower \"\n  //\"-v 24,raw48,Helium_Condition_Upper \"\n    \"-v 27,raw48,MAMR_Health_Monitor\"\n  },\n  { \"Toshiba MG10AFA... Enterprise Capacity HDD\", // tested with TOSHIBA MG10AFA22TE/0102\n    \"TOSHIBA MG10AFA22T[AE]Y?\",\n    \"\", \"\",\n  //\"-v 23,raw48,Helium_Condition_Lower \"\n  //\"-v 24,raw48,Helium_Condition_Upper \"\n    \"-v 27,raw48,MAMR_Health_Monitor\"\n  },\n  { \"Toshiba MG11 Cloud-scale Capacity HDD\", // tested with TOSHIBA MG11ACA24TE/0102\n    \"TOSHIBA MG11AC[AP](1[468]|2[024])TEY?\", // ACP = self-encrypting device (SED)\n    \"\", \"\",                                  // TEY = sanitize instant erase (SIE)\n  //\"-v 23,raw48,Helium_Condition_Lower \"\n  //\"-v 24,raw48,Helium_Condition_Upper \"\n    \"-v 27,raw48,MAMR_Health_Monitor\"\n  },\n  { \"Toshiba 3.5\\\" DT01ABA... Desktop HDD\", // tested with TOSHIBA DT01ABA300/MZ6OABB0\n    \"TOSHIBA DT01ABA(100|150|200|300)\",\n    \"\", \"\", \"\"\n  },\n  { \"Toshiba 3.5\\\" DT01ACA... Desktop HDD\", // tested with TOSHIBA DT01ACA100/MS2OA750,\n      // TOSHIBA DT01ACA200/MX4OABB0, TOSHIBA DT01ACA300/MX6OABB0\n    \"TOSHIBA DT01ACA(025|032|050|075|100|150|200|300)\",\n    \"\", \"\", \"\"\n  },\n  { \"Toshiba N300/MN NAS HDD\", // tested with TOSHIBA HDWQ140/FJ1M, TOSHIBA HDWN160/FS1M,\n      // TOSHIBA HDWN180/GX2M, TOSHIBA HDWG440/0601 (4TB), TOSHIBA HDWG480/0601 (8TB),\n      // TOSHIBA HDWG11A/0603 (10TB), TOSHIBA HDWG21C/0601 (12TB), TOSHIBA HDWG21E/0601 (14TB),\n      // TOSHIBA MN07ACA12T/0601, TOSHIBA MN08ACA14T/0601, TOSHIBA HDWG51J/0104 (18TB)\n    \"TOSHIBA HDW([GNQ]1[468]0|G(440|480|11A|21[CE]|31[EG]|51[EJ]))|\" // 31G: 16TB\n    \"TOSHIBA MN0(4ACA400|6ACA([68]00|10T)|7ACA1[24]T|8ACA1[46]T)\","
